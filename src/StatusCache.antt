-- ===== src/StatusCache.antt =====
-- query/cache.go: the cache of server observations, and when a change is reported. Times are in
-- seconds; a value of `Extras` is any JSON and stands as its text, since the cache only copies it.
-- The pointer to a status is never nil: no caller stores one.
pub mod Players
pub mod Changes
pub mod Interleavings
mod Tests
use hogs.Prelude.{
  ℕ, zero, suc, ◌+◌, ◌-◌, String, Bool, true, false, not, ◌&&◌, ◌||◌, List, [], ◌∷◌, Option, none,
  some, ltb, eqb, length, same_bool, if◌then◌else◌, ◌==◌,
}
use hogs.Prelude.Dict.{Dict, empty, put}

-- query/types.go
pub record Player : Type 0 where
  pub name : String
  pub id : String

pub record ServerStatus : Type 0 where
  pub online : Bool
  pub players : ℕ
  pub max_players : ℕ
  pub players_known : Bool
  pub player_list : Option (List Player)  -- `none` is nil
  pub version : String
  pub map_name : String
  pub server_message : String
  pub last_updated : ℕ
  pub error : String
  pub extras : Option (Dict String)  -- `none` is nil

abbrev pub cache_expiration : ℕ
cache_expiration = 60

abbrev pub error_cache_expiration : ℕ
error_cache_expiration = 10

pub record CacheEntry : Type 0 where
  pub status : ServerStatus
  pub timestamp : ℕ

-- `seen[name]++` over the first list.
abbrev pub bump : String → (String → ℕ) → String → ℕ
bump name seen key = if name == key then seen key + 1 else seen key

abbrev pub tally : List Player → (String → ℕ) → String → ℕ
tally [] seen = seen
tally (p ∷ ps) seen = tally ps (bump p.name seen)

-- The loop over the second list, which returns early at a name that is used up.
strike : List Player → (String → ℕ) → Bool
strike [] seen = true
strike (p ∷ ps) seen =
    let rest = strike ps (λ key. if p.name == key then seen key - 1 else seen key) in
    if eqb (seen p.name) 0 then false else rest

unfoldable pub same_players : Option (List Player) → Option (List Player) → Bool
unfolding strike
same_players none b = true
same_players (some a) none = true
same_players (some a) (some b) =
    if not (eqb (length a) (length b)) then false else strike b (tally a (λ key. 0))

unfoldable pub observation_changed : ServerStatus → ServerStatus → Bool
observation_changed old current =
    if not (same_bool old.online current.online)
    then true
    else if not current.online || not old.players_known || not current.players_known
    then false
    else not (eqb old.players current.players)
      || not (same_players old.player_list current.player_list)

abbrev pub Cache : Type 0
Cache = Dict CacheEntry

-- What the callback `onChange` is called with.
pub record Change : Type 0 where
  pub server_id : String
  pub old_status : ServerStatus
  pub new_status : ServerStatus

expiration : ServerStatus → ℕ
expiration status = if not status.online then error_cache_expiration else cache_expiration

fresh : ℕ → Option CacheEntry → Option ServerStatus
unfolding expiration
fresh now none = none
fresh now (some entry) =
    if ltb now (entry.timestamp + expiration entry.status) then some entry.status else none

-- `Get`, at a time
unfoldable pub get : Cache → String → ℕ → Option ServerStatus
unfolding fresh
get cache server_id now = fresh now (cache server_id)

-- `Latest`
unfoldable pub latest : Cache → String → Option ServerStatus
latest cache server_id = elim (cache server_id) [ none ↦ none | some entry ↦ some entry.status ]

report : String → Option CacheEntry → ServerStatus → Option Change
report server_id none status = none
report server_id (some old) status =
    if observation_changed old.status status
    then some (record { server_id = server_id; old_status = old.status; new_status = status })
    else none

-- `Set`: the cache with the status, which is stored under the lock, and the change that is reported
-- once it is released, if any.
unfoldable pub set : Cache → String → ServerStatus → ℕ → Cache × Option Change
unfolding report
set cache server_id status now = (
  put server_id (record { status = status; timestamp = now }) cache,
  report server_id (cache server_id) status,
)

overlay : Option (Dict String) → Dict String → Dict String
overlay none extras key = extras key
overlay (some old) extras key = elim (extras key) [ none ↦ old key | some value ↦ some value ]

merge_extras : Option (Dict String) → Option (Dict String) → Option (Dict String)
unfolding overlay
merge_extras old none = old
merge_extras old (some extras) = some (overlay old extras)

or_old : {A : Type 0} → Option A → Option A → Option A
or_old none old = old
or_old (some a) old = some a

-- What an observation of the agent becomes, beside the entry that the cache holds.
unfoldable pub merged : Option CacheEntry → ServerStatus → ServerStatus
unfolding merge_extras or_old
merged none observation = observation
merged (some old) observation =
    if observation.online
    then record old.status {
      online = observation.online;
      players = observation.players;
      max_players = observation.max_players;
      players_known = observation.players_known;
      player_list = or_old observation.player_list old.status.player_list;
      version =
          (if not (observation.version == "") then observation.version else old.status.version);
      last_updated = observation.last_updated;
      error = observation.error;
      extras = merge_extras old.status.extras observation.extras;
    }
    else observation

-- `SetAgentObservation`
unfoldable pub set_agent_observation : Cache → String → ServerStatus → ℕ → Cache × Option Change
unfolding set merged
set_agent_observation cache server_id observation now =
    set cache server_id (merged (cache server_id) observation) now
