-- ===== src/Schedule/Verdicts.antt =====
-- When a rule's action is executed, and what an evaluation stores.
use hogs.Prelude.{
  ℕ, Bool, true, false, not, ◌&&◌, ◌||◌, Option, List, eqb, ◌==◌, ◌≡◌, refl, ◌∙◌, Bool-cases, inl,
  inr,
}
use hogs.Engine.Constraints.{ActionResult}
use hogs.Schedule.{
  Text, Stamp, Job, Server, ConditionEnv, Tested, Verdict, Write, condition_of, env_of,
  is_unavailable, timer, start_timer, timed, tested, evaluate_condition,
}
use hogs.Schedule.Execute.{
  Executor, is_met, in_cooldown, is_configured, decided, judged, execute_job,
}

abbrev pub is_true_value : Tested → Bool
is_true_value (Tested.value b) = b
is_true_value _ = false

-- The condition of a job holds: it does not need an occupancy that is not known, and is true.
unfoldable pub holds : (Text → ConditionEnv → Tested) → ℕ → Job → Server → Bool
holds test now job server =
    let condition = condition_of job in
    let env = env_of now server in
    not (is_unavailable condition env.activity) && is_true_value (test condition env)

-- The timer of a job has run out, or it has none.
unfoldable pub is_due : ℕ → Job → Bool
is_due now job =
    eqb job.stability_seconds 0
    || is_met (timer job.stability_seconds now (start_timer now job.condition_true_since))

is_met-timed : (now : ℕ) (job : Job) → is_met (timed now job).0 ≡ is_due now job
unfolding timed is_due is_met
is_met-timed now job = elim (Bool-cases (eqb job.stability_seconds 0)) [
  | inl e ↦ rw e refl
  | inr e ↦ rw e refl
]

is_met-tested :
    (now : ℕ) (job : Job) (t : Tested)
    → is_met (tested now job t).0 ≡ (is_true_value t && is_due now job)
unfolding tested is_met
is_met-tested now job (Tested.fails e) = refl
is_met-tested now job Tested.no_boolean = refl
is_met-tested now job (Tested.value false) = refl
is_met-tested now job (Tested.value true) = is_met-timed now job

pub is_met-evaluate_condition :
    (test : Text → ConditionEnv → Tested) (now : ℕ) (job : Job) (server : Server)
    → is_met (evaluate_condition test now job server).0
      ≡ (holds test now job server && is_due now job)
unfolding evaluate_condition holds is_met
is_met-evaluate_condition test now job server =
    let env = env_of now server in
    let stale = is_unavailable (condition_of job) env.activity in
    elim (Bool-cases stale) [
      | inl e ↦ rw e refl
      | inr e ↦ rw e (is_met-tested now job (test (condition_of job) env))
    ]

called-judged :
    (now : ℕ) (job : Job) (v : Verdict) (since : Option Stamp) (writes : List Write)
    (decision : ActionResult) (executor : Executor) (has_notifier : Bool)
    → (judged now job (v, since, writes) decision executor has_notifier).called ≡ (
        is_met v
        && not (in_cooldown now job.cooldown_seconds job.last_action_at)
        && decision.result == "allowed"
        && is_configured executor)
unfolding judged decided
called-judged now job v since writes decision executor has_notifier = elim (Bool-cases (is_met v)) [
  | inl a ↦ elim (Bool-cases (in_cooldown now job.cooldown_seconds job.last_action_at)) [
    | inl b ↦ rw (a, b) refl
    | inr b ↦ elim (Bool-cases (decision.result == "allowed")) [
      | inl c ↦ rw (a, b, c) refl
      | inr c ↦ rw (a, b, c) refl
    ]
  ]
  | inr a ↦ rw a refl
]

-- The executor is called for a rule exactly when its server is found, its condition holds (one on
-- the occupancy only with a fresh server in which the players are known), its stability period has
-- passed, no cooldown is active, the engine's result is allowed, and an executor is configured.
pub called-execute_job :
    (test : Text → ConditionEnv → Tested) (now : ℕ) (job : Job) (is_found : Bool) (server : Server)
    (decision : ActionResult) (executor : Executor) (has_notifier : Bool)
    → (execute_job test now job is_found server decision executor has_notifier).called ≡ (
        is_found
        && holds test now job server
        && is_due now job
        && not (in_cooldown now job.cooldown_seconds job.last_action_at)
        && decision.result == "allowed"
        && is_configured executor)
unfolding execute_job
called-execute_job test now job false server decision executor has_notifier = refl
called-execute_job test now job true server decision executor has_notifier =
    let r = evaluate_condition test now job server in
    called-judged now job r.0 r.1 r.2 decision executor has_notifier
    ∙ rw (is_met-evaluate_condition test now job server) refl
