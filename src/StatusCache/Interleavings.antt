-- ===== src/StatusCache/Interleavings.antt =====
-- The reports of concurrent writers: `Set` and `SetAgentObservation` store a status under the lock and
-- call `onChange` after it is released, so the reports of several writers come in any order.
use hogs.Prelude.{
  ℕ, ◌+◌, String, Bool, List, [], ◌∷◌, ◌++◌, some, if◌then◌else◌, ◌≡◌, refl, ◌∙◌, ap, arith,
  eq_refl,
}
use hogs.StatusCache.{
  ServerStatus, CacheEntry, Cache, Change, latest, observation_changed, set, merged,
  set_agent_observation,
}
use hogs.StatusCache.Changes.{Write, queried, observed, write, add, online_of}

-- The cache, the reports whose writers have released the lock and not called back yet, and the
-- reports heard, the latest first.
pub record World : Type 0 where
  pub cache : Cache
  pub pending : List Change
  pub heard : List Change

abbrev pub stored : String → Write → World → World
stored id w world = record world {
  cache = (write id world.cache w).0;
  pending = add (write id world.cache w).1 world.pending;
}

-- A writer stores a status, or one that did calls back, whichever it is.
pub data Step (id : String) : World → World → Type 0 where
  stores : {world : World} (w : Write) → Step id world (stored id w world)
  reports :
      {world : World} (earlier later : List Change) (change : Change)
      → world.pending ≡ earlier ++ change ∷ later
      → Step id world (record world { pending = earlier ++ later; heard = change ∷ world.heard })

pub data Reach (id : String) (cache : Cache) : World → Type 0 where
  begin : Reach id cache (record { cache = cache; pending = []; heard = [] })
  more : {v w : World} → Reach id cache v → Step id v w → Reach id cache w

abbrev pub bit : Bool → ℕ
bit b = if b then 1 else 0

-- The reports that say that the server came up, and those that say that it went down.
abbrev pub ups : List Change → ℕ
ups [] = 0
ups (c ∷ cs) = (if c.old_status.online then 0 else bit c.new_status.online) + ups cs

abbrev pub downs : List Change → ℕ
downs [] = 0
downs (c ∷ cs) = (if c.new_status.online then 0 else bit c.old_status.online) + downs cs

ups-middle : (a b : List Change) (c : Change) → ups (a ++ c ∷ b) ≡ ups (c ∷ a ++ b)
ups-middle [] b c = refl
ups-middle (x ∷ a) b c = let ih = ups-middle a b c in ground (arith, ih)

downs-middle : (a b : List Change) (c : Change) → downs (a ++ c ∷ b) ≡ downs (c ∷ a ++ b)
downs-middle [] b c = refl
downs-middle (x ∷ a) b c = let ih = downs-middle a b c in ground (arith, ih)

set-counted :
    (id : String) (cache : Cache) (status : ServerStatus) (now : ℕ) (entry : CacheEntry)
    (pending : List Change)
    → cache id ≡ some entry
    → ((set cache id status now).0 id ≡ some (record { status = status; timestamp = now }))
      × (ups (add (set cache id status now).1 pending) + downs pending + bit entry.status.online
          ≡ downs (add (set cache id status now).1 pending) + ups pending + bit status.online)
unfolding set observation_changed
set-counted id cache status now entry pending h = ground (arith, eq_refl id)

-- Either write stores some status, and its report tells a change of reachability.
write-counted :
    (id : String) (cache : Cache) (w : Write) (entry : CacheEntry) (pending : List Change)
    → cache id ≡ some entry
    → (last : CacheEntry) × ((write id cache w).0 id ≡ some last)
      × (ups (add (write id cache w).1 pending) + downs pending + bit entry.status.online
          ≡ downs (add (write id cache w).1 pending) + ups pending + bit last.status.online)
write-counted id cache (queried status now) entry pending h =
    let k = set-counted id cache status now entry pending h in
    (record { status = status; timestamp = now }, k.0, k.1)
write-counted id cache (observed status now) entry pending h =
    let m = merged (cache id) status in
    let k = set-counted id cache m now entry pending h in
    (
      record { status = m; timestamp = now },
      unfold set_agent_observation in k.0,
      unfold set_agent_observation in k.1,
    )

-- The last status stored, against the first one and all the reports.
record IsCounted (id : String) (first : Bool) (w : World) : Type 0 where
  last : CacheEntry
  cached : w.cache id ≡ some last
  balance :
      ups w.heard + ups w.pending + bit first
      ≡ downs w.heard + downs w.pending + bit last.status.online

Step-IsCounted :
    (id : String) (first : Bool) {v w : World}
    → Step id v w
    → IsCounted id first v
    → IsCounted id first w
Step-IsCounted id first (Step.stores {world} w) i =
    let (last, cached, told) = write-counted id world.cache w i.last world.pending i.cached in
    record { last = last; cached = cached; balance = omega (arith, told, i.balance) }
Step-IsCounted id first (Step.reports {world} earlier later change e) i =
    let u : ups world.pending ≡ ups (change ∷ earlier ++ later) =
      ap ups e ∙ ups-middle earlier later change in
    let d : downs world.pending ≡ downs (change ∷ earlier ++ later) =
      ap downs e ∙ downs-middle earlier later change in
    record { last = i.last; cached = i.cached; balance = omega (arith, u, d, i.balance) }

Reach-IsCounted :
    (id : String) (cache : Cache) (entry : CacheEntry) {w : World}
    → cache id ≡ some entry
    → Reach id cache w
    → IsCounted id entry.status.online w
Reach-IsCounted id cache entry h Reach.begin = record {
  last = entry;
  cached = h;
  balance = omega arith;
}
Reach-IsCounted id cache entry h (Reach.more r s) =
    Step-IsCounted id entry.status.online s (Reach-IsCounted id cache entry h r)

-- From a cached entry on, over any query results and agent observations of a server by concurrent
-- writers, whose reports come in any order: the reports of the server coming up, heard or still to
-- come, are as many as those of its going down, up to whether it was online at first and whether the
-- last status stored is online (`default` is never used). No change of reachability goes unreported.
pub Reach-counted :
    (id : String) (cache : Cache) (default : Bool) (entry : CacheEntry) {w : World}
    → cache id ≡ some entry
    → Reach id cache w
    → ups w.heard + ups w.pending + bit entry.status.online
      ≡ downs w.heard + downs w.pending + bit (online_of default (latest w.cache id))
unfolding latest
Reach-counted id cache default entry h r =
    let i = Reach-IsCounted id cache entry h r in rw (i.cached, online_of) i.balance
