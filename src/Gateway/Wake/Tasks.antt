-- ===== src/Gateway/Wake/Tasks.antt =====
-- The gateway with the tasks that it starts: `requestWake`, `refreshState` and
-- `newMinecraftGateway` start one each, and each ends in one of the outcomes of `requestWake` and
-- `awaitReadiness`. The mutex makes each step whole.
use hogs.Prelude.{
  ℕ, suc, ◌+◌, ◌-◌, ◌≤◌, ◌<◌, Bool, true, false, ◌||◌, Option, none, some, List, [], ◌∷◌, String,
  length, ltb, if◌then◌else◌, ◌≡◌, refl, sym, ◌∙◌, arith, Bool-cases, Option-cases, ◌++◌, inl, inr,
}
use hogs.Gateway.Wake.{
  Settings, Gateway, is_cooling, request_wake, give_up, with_sample, become_ready, refresh_state,
  mark_ready_without_boot, mark_backend_unavailable, new_minecraft_gateway,
}
use hogs.Gateway.Wake.Samples.{length-trim}

-- The gateway, the number of running tasks, and the times of the wakes, the latest first.
pub record World : Type 0 where
  pub gateway : Gateway
  pub tasks : ℕ
  pub wakes : List ℕ

unfoldable pub counted : Bool → ℕ
counted b = if b then 1 else 0

unfoldable pub after_request : ℕ → World → Gateway × Bool → World
unfolding counted
after_request now w (g, started) = record {
  gateway = g;
  tasks = counted started + w.tasks;
  wakes = if started then now ∷ w.wakes else w.wakes;
}

unfoldable pub after_refresh : World → Gateway × Bool → World
unfolding counted
after_refresh w (g, started) = record w { gateway = g; tasks = counted started + w.tasks }

unfoldable pub opened : Bool → Bool → ℕ → List ℕ → Option ℕ → World
unfolding counted new_minecraft_gateway
opened answers active now durations last_ready =
    let made = new_minecraft_gateway answers active now durations last_ready in
    record { gateway = made.0; tasks = counted made.1; wakes = [] }

pub data Step (s : Settings) : World → World → Type 0 where
  wake : {w : World} (now : ℕ) → Step s w (after_request now w (request_wake s now w.gateway))
  refresh :
      {w : World} (answers active : Bool) (now : ℕ)
      → Step s w (after_refresh w (refresh_state answers active now w.gateway))
  dialed : {w : World} → Step s w (record w { gateway = mark_ready_without_boot w.gateway })
  unreachable :
      {w : World} (active : Bool)
      → Step s w (record w { gateway = mark_backend_unavailable active w.gateway })
  failed :
      {g : Gateway} {n : ℕ} {l : List ℕ} (message : String)
      → Step s
          (record { gateway = g; tasks = suc n; wakes = l })
          (record { gateway = give_up message g; tasks = n; wakes = l })
  succeeded :
      {g : Gateway} {n : ℕ} {l : List ℕ} (now : ℕ)
      → Step s
          (record { gateway = g; tasks = suc n; wakes = l })
          (record { gateway = become_ready now g; tasks = n; wakes = l })

pub data Reach (s : Settings) : World → World → Type 0 where
  done : {w : World} → Reach s w w
  more : {u v w : World} → Reach s u v → Step s v w → Reach s u w

-- Wakes at least a cooldown apart, and the latest of them.
unfoldable pub IsSpaced : Settings → List ℕ → Type 0
IsSpaced s [] = Unit
IsSpaced s (x ∷ []) = Unit
IsSpaced s (x ∷ y ∷ ys) = (y + s.wake_cooldown ≤ x) × IsSpaced s (y ∷ ys)

unfoldable pub latest : List ℕ → Option ℕ
latest [] = none
latest (x ∷ xs) = some x

pub record IsSound (s : Settings) (w : World) : Type 0 where
  -- A task runs exactly while a start is in flight, and never two.
  pub one_task : w.tasks ≡ counted w.gateway.start_in_flight
  pub samples : length w.gateway.boot_durations ≤ 20
  pub spaced : IsSpaced s w.wakes
  pub last : w.gateway.last_wake_at ≡ latest w.wakes
  pub triggered : w.gateway.wake_triggered ≡ length w.wakes

cooling_since :
    (s : Settings) (g : Gateway) (now x : ℕ)
    → g.last_wake_at ≡ some x
    → is_cooling s g now ≡ ltb (now - x) s.wake_cooldown
unfolding is_cooling
cooling_since s g now x e = rw e refl

-- A wake at the end of the cooldown keeps the wakes apart.
IsSpaced-more :
    (s : Settings) (g : Gateway) (now : ℕ) (l : List ℕ)
    → is_cooling s g now ≡ false
    → g.last_wake_at ≡ latest l
    → 0 < s.wake_cooldown
    → IsSpaced s l
    → IsSpaced s (now ∷ l)
unfolding is_cooling latest IsSpaced
IsSpaced-more s g now [] h e p i = tt
IsSpaced-more s g now (x ∷ l) h e p i =
    let k = sym (cooling_since s g now x e) ∙ h in (ground (arith, k), i)

request_wake-idle :
    (s : Settings) (now : ℕ) (g : Gateway)
    → (g.start_in_flight || is_cooling s g now) ≡ true
    → request_wake s now g ≡ (g, false)
unfolding request_wake
request_wake-idle s now g e = rw e refl

request-IsSound :
    (s : Settings) (now : ℕ) (w : World)
    → 0 < s.wake_cooldown
    → IsSound s w
    → IsSound s (after_request now w (request_wake s now w.gateway))
unfolding request_wake after_request latest
request-IsSound s now w p i =
    elim (Bool-cases (w.gateway.start_in_flight || is_cooling s w.gateway now)) [
      | inl e ↦ rw (request_wake-idle s now w.gateway e) (record {
        one_task = omega (arith, i.one_task);
        samples = i.samples;
        spaced = i.spaced;
        last = i.last;
        triggered = i.triggered;
      })
      | inr e ↦
          let idle : w.gateway.start_in_flight ≡ false = ground (arith, e) in
          let rested : is_cooling s w.gateway now ≡ false = ground (arith, e) in
          rw e (record {
            one_task = ground (arith, idle, i.one_task);
            samples = i.samples;
            spaced = IsSpaced-more s w.gateway now w.wakes rested i.last p i.spaced;
            last = refl;
            triggered = ground (arith, i.triggered);
          })
    ]

refresh_state-task :
    (answers active : Bool) (now : ℕ) (g : Gateway)
    → counted (refresh_state answers active now g).1 + counted g.start_in_flight
      ≡ counted (refresh_state answers active now g).0.start_in_flight
unfolding refresh_state counted
refresh_state-task answers active now g = ground arith

refresh_state-kept :
    (answers active : Bool) (now : ℕ) (g : Gateway)
    → ((refresh_state answers active now g).0.boot_durations ≡ g.boot_durations)
      × ((refresh_state answers active now g).0.last_wake_at ≡ g.last_wake_at)
      × ((refresh_state answers active now g).0.wake_triggered ≡ g.wake_triggered)
unfolding refresh_state
refresh_state-kept answers active now g = ground arith

refresh-IsSound :
    (s : Settings) (answers active : Bool) (now : ℕ) (w : World)
    → IsSound s w
    → IsSound s (after_refresh w (refresh_state answers active now w.gateway))
unfolding refresh_state after_refresh
refresh-IsSound s answers active now w i = record {
  one_task = rw i.one_task (refresh_state-task answers active now w.gateway);
  samples = rw (refresh_state-kept answers active now w.gateway).0 i.samples;
  spaced = i.spaced;
  last = (refresh_state-kept answers active now w.gateway).1 ∙ i.last;
  triggered = (refresh_state-kept answers active now w.gateway).2 ∙ i.triggered;
}

unreachable-IsSound :
    (s : Settings) (active : Bool) (w : World)
    → IsSound s w
    → IsSound s (record w { gateway = mark_backend_unavailable active w.gateway })
unfolding mark_backend_unavailable
unreachable-IsSound s active w i = record {
  one_task = ground (arith, i.one_task);
  samples = ground (arith, i.samples);
  spaced = i.spaced;
  last = ground (arith, i.last);
  triggered = ground (arith, i.triggered);
}

length-with_sample :
    (now : ℕ) (g : Gateway) → length g.boot_durations ≤ 20 → length (with_sample now g) ≤ 20
unfolding with_sample
length-with_sample now g h = elim (Option-cases g.boot_started_at) [
  | inl e ↦ rw e h
  | inr (started, e) ↦
      let t = length-trim (g.boot_durations ++ (now - started) ∷ []) in rw e (ground (arith, t))
]

step-IsSound :
    (s : Settings) {v w : World} → 0 < s.wake_cooldown → Step s v w → IsSound s v → IsSound s w
unfolding give_up become_ready mark_ready_without_boot counted
step-IsSound s p (Step.wake {w} now) i = request-IsSound s now w p i
step-IsSound s p (Step.refresh {w} answers active now) i = refresh-IsSound s answers active now w i
step-IsSound s p (Step.dialed {w}) i = record {
  one_task = i.one_task;
  samples = i.samples;
  spaced = i.spaced;
  last = i.last;
  triggered = i.triggered;
}
step-IsSound s p (Step.unreachable {w} active) i = unreachable-IsSound s active w i
step-IsSound s p (Step.failed {g} message) i = record {
  one_task = ground (arith, i.one_task);
  samples = i.samples;
  spaced = i.spaced;
  last = i.last;
  triggered = i.triggered;
}
step-IsSound s p (Step.succeeded {g} now) i = record {
  one_task = ground (arith, i.one_task);
  samples = length-with_sample now g i.samples;
  spaced = i.spaced;
  last = i.last;
  triggered = i.triggered;
}

opened-IsSound :
    (s : Settings) (answers active : Bool) (now : ℕ) (durations : List ℕ) (last_ready : Option ℕ)
    → IsSound s (opened answers active now durations last_ready)
unfolding opened IsSpaced latest
opened-IsSound s true active now durations last_ready = record {
  one_task = refl;
  samples = length-trim durations;
  spaced = tt;
  last = refl;
  triggered = refl;
}
opened-IsSound s false true now durations last_ready = record {
  one_task = refl;
  samples = length-trim durations;
  spaced = tt;
  last = refl;
  triggered = refl;
}
opened-IsSound s false false now durations last_ready = record {
  one_task = refl;
  samples = length-trim durations;
  spaced = tt;
  last = refl;
  triggered = refl;
}

-- Whatever a gateway is asked and however its starts end, it has a start in flight exactly while
-- one start task runs and never runs two, keeps at most 20 boot durations, and its wakes lie at
-- least the cooldown apart and are as many as it counted, for a cooldown above 0.
pub Reach-IsSound :
    (s : Settings) (answers active : Bool) (now : ℕ) (durations : List ℕ) (last_ready : Option ℕ)
    {w : World}
    → 0 < s.wake_cooldown
    → Reach s (opened answers active now durations last_ready) w
    → IsSound s w
Reach-IsSound s answers active now durations last_ready p r = go r
  where
    go : {w : World} → Reach s (opened answers active now durations last_ready) w → IsSound s w
    go Reach.done = opened-IsSound s answers active now durations last_ready
    go (Reach.more h k) = step-IsSound s p k (go h)
