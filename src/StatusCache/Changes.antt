-- ===== src/StatusCache/Changes.antt =====
-- What the cache returns after a write, and what its change reports tell.
use hogs.Prelude.{
  ℕ, ◌+◌, String, Bool, true, false, List, [], ◌∷◌, Option, none, some, ltb, if◌then◌else◌, ◌==◌,
  eq_refl, ◌≡◌, ◌∙◌, ap, refl, arith,
}
use hogs.Prelude.Dict.{Dict}
use hogs.StatusCache.{
  ServerStatus, CacheEntry, Cache, Change, get, latest, observation_changed, set, merged,
  set_agent_observation,
}

-- After `Set` of a server at time `t`, `Get` at `now` returns the status until 60 seconds after
-- `t`, or 10 if the status is offline; every other server's answer is what it was.
pub get-set :
    (cache : Cache) (id key : String) (status : ServerStatus) (t now : ℕ)
    → get (set cache id status t).0 key now ≡ (
        if id == key
        then (if ltb now (t + (if status.online then 60 else 10)) then some status else none)
        else get cache key now)
unfolding get set
get-set cache id key status t now = ground arith

-- An entry of the extras after an observation: the observation's value where it has the key, and
-- else the value that the cache held.
abbrev pub extra : Option (Dict String) → String → Option String
extra none key = none
extra (some extras) key = extras key

-- An agent observation of an online server keeps the map name and the server message of the
-- cached status and every extra that it does not give itself, and takes reachability, occupancy and
-- error from the observation; player names and version are kept where the observation has none.
pub merged_online :
    (old : CacheEntry) (observation : ServerStatus) (key : String)
    → observation.online ≡ true
    → let status = merged (some old) observation in
      (status.map_name ≡ old.status.map_name)
      × (status.server_message ≡ old.status.server_message)
      × (extra status.extras key ≡ elim (extra observation.extras key) [
        | none ↦ extra old.status.extras key
        | some value ↦ some value
      ])
      × (status.online ≡ true)
      × (status.players ≡ observation.players)
      × (status.players_known ≡ observation.players_known)
      × (status.error ≡ observation.error)
      × (status.player_list ≡ elim observation.player_list [
        | none ↦ old.status.player_list
        | some names ↦ some names
      ])
      × (status.version
          ≡ (if observation.version == "" then old.status.version else observation.version))
unfolding merged
merged_online old observation key h = ground arith

-- The writes that one server sees: query results and agent observations, each at a time.
pub data Write : Type 0 where
  queried observed : ServerStatus → ℕ → Write

abbrev pub write : String → Cache → Write → Cache × Option Change
write id cache (queried status now) = set cache id status now
write id cache (observed status now) = set_agent_observation cache id status now

abbrev pub add : Option Change → List Change → List Change
add none changes = changes
add (some change) changes = change ∷ changes

unfoldable pub run : String → Cache → List Write → Cache × List Change
run id cache [] = (cache, [])
run id cache (w ∷ ws) =
    let (cache', change) = write id cache w in
    let (last, changes) = run id cache' ws in (last, add change changes)

-- What a listener that sees only the reports takes the server's reachability to be.
abbrev pub heard : Bool → List Change → Bool
heard online [] = online
heard online (change ∷ changes) = heard change.new_status.online changes

abbrev pub online_of : Bool → Option ServerStatus → Bool
online_of default none = default
online_of default (some status) = status.online

observation_changed-online :
    (old current : ServerStatus)
    → observation_changed old current ≡ false
    → old.online ≡ current.online
unfolding observation_changed
observation_changed-online old current h = ground arith

set-heard :
    (id : String) (cache : Cache) (status : ServerStatus) (now : ℕ) (entry : CacheEntry)
    → cache id ≡ some entry
    → ((set cache id status now).0 id ≡ some (record { status = status; timestamp = now }))
      × (heard entry.status.online (add (set cache id status now).1 []) ≡ status.online)
unfolding set
set-heard id cache status now entry h =
    ground (arith, eq_refl id, observation_changed-online entry.status status)

heard-add :
    (b : Bool) (change : Option Change) (changes : List Change)
    → heard b (add change changes) ≡ heard (heard b (add change [])) changes
heard-add b none changes = refl
heard-add b (some change) changes = refl

-- Either write stores some status of the server, and its report tells a change of reachability.
write-heard :
    (id : String) (cache : Cache) (w : Write) (entry : CacheEntry)
    → cache id ≡ some entry
    → (stored : CacheEntry) × ((write id cache w).0 id ≡ some stored)
      × (heard entry.status.online (add (write id cache w).1 []) ≡ stored.status.online)
write-heard id cache (queried status now) entry h = (
  record { status = status; timestamp = now },
  (set-heard id cache status now entry h).0,
  (set-heard id cache status now entry h).1,
)
write-heard id cache (observed status now) entry h =
    let m = merged (cache id) status in
    (
      record { status = m; timestamp = now },
      unfold set_agent_observation in (set-heard id cache m now entry h).0,
      unfold set_agent_observation in (set-heard id cache m now entry h).1,
    )

-- From a cached entry on, over any query results and agent observations of a server by writers of
-- which each has reported before the next one writes, a listener
-- that follows the reports alone knows whether the last status stored is online (`default` is never
-- used): no change of reachability goes unreported.
pub run-heard :
    (id : String) (cache : Cache) (ws : List Write) (default : Bool) (entry : CacheEntry)
    → cache id ≡ some entry
    → heard entry.status.online (run id cache ws).1
      ≡ online_of default (latest (run id cache ws).0 id)
unfolding run latest
run-heard id cache [] default entry h = ground arith
run-heard id cache (w ∷ ws) default entry h =
    let (stored, held, told) = write-heard id cache w entry h in
    heard-add entry.status.online (write id cache w).1 (run id (write id cache w).0 ws).1
    ∙ ap (λ b. heard b (run id (write id cache w).0 ws).1) told
    ∙ run-heard id (write id cache w).0 ws default stored held
