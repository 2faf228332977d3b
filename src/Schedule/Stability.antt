-- ===== src/Schedule/Stability.antt =====
-- The stability period over all the firings of a rule.
use hogs.Prelude.{
  ℕ, ◌+◌, ◌-◌, ◌*◌, ◌/◌, ◌≤◌, ◌<◌, Bool, true, false, Option, none, some, List, [], ◌∷◌, ltb, eqb,
  if◌then◌else◌, ◌≡◌, refl, ◌⊎◌, arith, Bool-cases, inl, inr,
}
use hogs.Schedule.{
  Text, second, Stamp, Job, ConditionEnv, Tested, Server, Verdict, timer, start_timer, timed,
  tested, evaluate_condition, condition_of, env_of, is_unavailable,
}
use hogs.Schedule.Execute.{is_met, kept_timer}
use hogs.Schedule.Verdicts.{holds, is_due, is_true_value}
use hogs.Schedule.Runs.{
  Firing, World, executed, fire, fire_all, execute_job-stored, execute_job-unfound, called-checked,
}
use hogs.Schedule.Spacing.{new_rule}

-- The condition held at every firing from one in that second on.
unfoldable pub HeldSince : ℕ → List (ℕ × Bool) → Type 0
HeldSince since [] = ⊥
HeldSince since ((now, held) ∷ history) =
    (held ≡ true) × ((now / second ≡ since) ⊎ HeldSince since history)

-- The stored timer of a job says since when its condition held.
unfoldable pub IsTimed : Option Stamp → List (ℕ × Bool) → Type 0
unfolding HeldSince
IsTimed none history = Unit
IsTimed (some (Stamp.at since)) history = HeldSince since history
IsTimed (some Stamp.garbled) history = ⊥

started-IsTimed :
    (now : ℕ) (since : Option Stamp) (history : List (ℕ × Bool))
    → IsTimed since history
    → IsTimed (some (start_timer now since)) ((now, true) ∷ history)
unfolding IsTimed HeldSince start_timer
started-IsTimed now none history h = (refl, inl refl)
started-IsTimed now (some (Stamp.at since)) history h = (refl, inr h)
started-IsTimed now (some Stamp.garbled) history h = absurd h

kept_timer-IsTimed :
    (v : Verdict) (since : Option Stamp) (history : List (ℕ × Bool))
    → IsTimed since history
    → IsTimed (kept_timer v since) history
unfolding kept_timer IsTimed
kept_timer-IsTimed (Verdict.waiting_for n) since history h = h
kept_timer-IsTimed Verdict.is_true since history h = tt
kept_timer-IsTimed Verdict.stable since history h = tt
kept_timer-IsTimed Verdict.telemetry_unavailable since history h = tt
kept_timer-IsTimed Verdict.not_boolean since history h = tt
kept_timer-IsTimed Verdict.is_false since history h = tt
kept_timer-IsTimed Verdict.timer_initializing since history h = tt
kept_timer-IsTimed (Verdict.condition_error e) since history h = tt

timed-IsTimed :
    (now : ℕ) (job : Job) (history : List (ℕ × Bool))
    → IsTimed job.condition_true_since history
    → IsTimed (kept_timer (timed now job).0 (timed now job).1) ((now, true) ∷ history)
unfolding timed kept_timer IsTimed
timed-IsTimed now job history h =
    let since = start_timer now job.condition_true_since in
    let started = started-IsTimed now job.condition_true_since history h in
    let v : Verdict = timer job.stability_seconds now since in
    elim (Bool-cases (eqb job.stability_seconds 0)) [
      | inl e ↦ rw e tt
      | inr e ↦ rw e (kept_timer-IsTimed v (some since) ((now, true) ∷ history) started)
    ]

tested-IsTimed :
    (now : ℕ) (job : Job) (t : Tested) (history : List (ℕ × Bool))
    → IsTimed job.condition_true_since history
    → IsTimed
        (kept_timer (tested now job t).0 (tested now job t).1)
        ((now, is_true_value t) ∷ history)
unfolding tested kept_timer IsTimed
tested-IsTimed now job (Tested.fails e) history h = tt
tested-IsTimed now job Tested.no_boolean history h = tt
tested-IsTimed now job (Tested.value false) history h = tt
tested-IsTimed now job (Tested.value true) history h = timed-IsTimed now job history h

module _ (test : Text → ConditionEnv → Tested) where
  evaluated-IsTimed :
      (now : ℕ) (job : Job) (server : Server) (history : List (ℕ × Bool))
      → IsTimed job.condition_true_since history
      → (let r = evaluate_condition test now job server in
          IsTimed (kept_timer r.0 r.1) ((now, holds test now job server) ∷ history))
  unfolding evaluate_condition holds kept_timer IsTimed
  evaluated-IsTimed now job server history h =
      let condition = condition_of job in
      let env = env_of now server in
      let stale = is_unavailable condition env.activity in
      elim (Bool-cases stale) [
        | inl e ↦ rw e tt
        | inr e ↦ rw e (tested-IsTimed now job (test condition env) history h)
      ]

  fire-IsTimed :
      (f : Firing) (w : World)
      → IsTimed w.job.condition_true_since w.history
      → IsTimed (fire test f w).job.condition_true_since (fire test f w).history
  unfolding fire
  fire-IsTimed f w h = elim (Bool-cases f.is_found) [
    | inl a ↦
        rw (execute_job-stored test f w.job a, a)
          (evaluated-IsTimed f.now w.job f.server w.history h)
    | inr a ↦ rw ((execute_job-unfound test f w.job a).0, a) h
  ]

  fire_all-IsTimed :
      (fs : List Firing) (w : World)
      → IsTimed w.job.condition_true_since w.history
      → IsTimed (fire_all test fs w).job.condition_true_since (fire_all test fs w).history
  unfolding fire_all
  fire_all-IsTimed [] w h = h
  fire_all-IsTimed (f ∷ fs) w h = fire_all-IsTimed fs (fire test f w) (fire-IsTimed f w h)

met_early :
    (b : Bool) (n : ℕ)
    → is_met (if b then Verdict.waiting_for n else Verdict.stable) ≡ true
    → b ≡ false
unfolding is_met
met_early true n h = cc
met_early false n h = refl

due_met :
    (now due : ℕ)
    → is_met (if ltb now due then Verdict.waiting_for (due - now) else Verdict.stable) ≡ true
    → due ≤ now
due_met now due h = let e = met_early (ltb now due) (due - now) h in ground (arith, e)

stable_since :
    (now stability : ℕ) (timed_since : Option Stamp) (history : List (ℕ × Bool))
    → IsTimed timed_since history
    → is_met (timer stability now (start_timer now timed_since)) ≡ true
    → (since : ℕ) × HeldSince since ((now, true) ∷ history)
      × (since * second + stability * second ≤ now)
unfolding timer start_timer IsTimed HeldSince
stable_since now stability none history h d = (now / second, (refl, inl refl), due_met now _ d)
stable_since now stability (some (Stamp.at since)) history h d =
    (since, (refl, inr h), due_met now _ d)
stable_since now stability (some Stamp.garbled) history h d = absurd h

due_timer :
    (now : ℕ) (job : Job)
    → 0 < job.stability_seconds
    → is_due now job ≡ true
    → is_met (timer job.stability_seconds now (start_timer now job.condition_true_since)) ≡ true
unfolding is_due
due_timer now job p d = ground (arith, d)

-- A new rule with a stability period calls for its action only if its condition held at this firing
-- and at every earlier one down to one in a second that is at least the period ago, over any firings
-- before it.
pub called-HeldSince :
    (test : Text → ConditionEnv → Tested) (fs : List Firing) (f : Firing) (job : Job)
    → 0 < (fire_all test fs (new_rule job)).job.stability_seconds
    → job.condition_true_since ≡ none
    → (executed test f (fire_all test fs (new_rule job)).job).called ≡ true
    → (since : ℕ) × HeldSince since ((f.now, true) ∷ (fire_all test fs (new_rule job)).history)
      × (since * second + (fire_all test fs (new_rule job)).job.stability_seconds * second ≤ f.now)
unfolding IsTimed
called-HeldSince test fs f job p h c =
    let w = fire_all test fs (new_rule job) in
    stable_since f.now w.job.stability_seconds w.job.condition_true_since w.history
      (fire_all-IsTimed test fs (new_rule job) (rw h tt))
      (due_timer f.now w.job p (called-checked test f w.job c).3)
