-- ===== src/Schedule/Runs.antt =====
-- A rule over any number of its firings: each reads the job that the one before has stored.
use hogs.Prelude.{
  ℕ, ◌/◌, Bool, true, false, ◌&&◌, Option, none, some, List, [], ◌∷◌, ◌++◌, ◌==◌, if◌then◌else◌,
  ◌≡◌, refl, ◌∙◌, arith, Bool-cases, inl, inr,
}
use hogs.Engine.Constraints.{ActionResult}
use hogs.Schedule.{
  Text, second, Stamp, Job, Server, ConditionEnv, Tested, Verdict, JobResult, Write,
  evaluate_condition,
}
use hogs.Schedule.Execute.{
  Executor, Executed, is_met, kept_timer, finish_job, in_cooldown, is_configured, succeeds,
  run_action, refusal, decided, judged, execute_job, apply, apply_all,
}
use hogs.Schedule.Verdicts.{holds, is_due, called-execute_job}

-- A job with another timer and another last action.
abbrev pub with_runtime : Job → Option Stamp → Option Stamp → Job
with_runtime job since last = record job { condition_true_since = since; last_action_at = last }

apply_all-append :
    (a b : List Write) (job : Job) → apply_all (a ++ b) job ≡ apply_all b (apply_all a job)
unfolding apply_all
apply_all-append [] b job = refl
apply_all-append (w ∷ a) b job = apply_all-append a b (apply w job)

with_runtime-apply :
    (w : Write) (job : Job) (since last : Option Stamp)
    → with_runtime (apply w job) since last ≡ with_runtime job since last
unfolding apply
with_runtime-apply (Write.timestamps t) job since last = refl
with_runtime-apply (Write.result r) job since last = refl
with_runtime-apply (Write.runtime s l) job since last = refl
with_runtime-apply (Write.log t r) job since last = refl

with_runtime-apply_all :
    (ws : List Write) (job : Job) (since last : Option Stamp)
    → with_runtime (apply_all ws job) since last ≡ with_runtime job since last
unfolding apply_all
with_runtime-apply_all [] job since last = refl
with_runtime-apply_all (w ∷ ws) job since last =
    with_runtime-apply_all ws (apply w job) since last ∙ with_runtime-apply w job since last

-- `finishJob` decides the stored timer and last action, whatever was written before it.
apply_all-finish_job :
    (ws : List Write) (now : ℕ) (r : JobResult) (since last : Option Stamp) (job : Job)
    → apply_all (ws ++ finish_job now r since last) job ≡ with_runtime job since last
unfolding apply_all apply finish_job
apply_all-finish_job ws now r since last job =
    apply_all-append ws (finish_job now r since last) job ∙ with_runtime-apply_all ws job since last

kept_timer-is_met :
    (v : Verdict) (since : Option Stamp) → is_met v ≡ true → kept_timer v since ≡ none
unfolding kept_timer is_met
kept_timer-is_met Verdict.is_true since h = refl
kept_timer-is_met Verdict.stable since h = refl
kept_timer-is_met (Verdict.waiting_for n) since h = cc
kept_timer-is_met Verdict.telemetry_unavailable since h = refl
kept_timer-is_met Verdict.not_boolean since h = refl
kept_timer-is_met Verdict.is_false since h = refl
kept_timer-is_met Verdict.timer_initializing since h = refl
kept_timer-is_met (Verdict.condition_error e) since h = refl

-- Did an evaluation run the action?
unfoldable pub ran : Executed → Executor → Bool
ran e executor = e.called && succeeds executor

configured_succeeds :
    (executor : Executor) → (is_configured executor && succeeds executor) ≡ succeeds executor
unfolding is_configured succeeds
configured_succeeds Executor.missing = refl
configured_succeeds Executor.done = refl
configured_succeeds (Executor.failing e) = refl

decided-stored :
    (now : ℕ) (job : Job) (ws : List Write) (decision : ActionResult) (executor : Executor)
    (has_notifier : Bool)
    → let e : Executed = decided now job decision executor has_notifier in
      apply_all (ws ++ e.writes) job
      ≡ with_runtime job none
          (if ran e executor then some (Stamp.at (now / second)) else job.last_action_at)
unfolding decided ran succeeds is_configured
decided-stored now job ws decision executor has_notifier =
    elim (Bool-cases (decision.result == "allowed")) [
      | inl a ↦ rw a (
          rw (configured_succeeds executor)
            (apply_all-finish_job ws now (run_action executor) none _ job))
      | inr a ↦
          rw a (apply_all-finish_job ws now (refusal decision.result) none job.last_action_at job)
    ]

abbrev pub acted : Bool → ℕ → Option Stamp → Option Stamp
acted did now last = if did then some (Stamp.at (now / second)) else last

judged-stored :
    (now : ℕ) (job : Job) (v : Verdict) (since : Option Stamp) (ws : List Write)
    (decision : ActionResult) (executor : Executor) (has_notifier : Bool)
    → let e : Executed = judged now job (v, since, ws) decision executor has_notifier in
      apply_all e.writes job
      ≡ with_runtime job (kept_timer v since) (acted (ran e executor) now job.last_action_at)
unfolding judged ran
judged-stored now job v since ws decision executor has_notifier = elim (Bool-cases (is_met v)) [
  | inl a ↦ elim (Bool-cases (in_cooldown now job.cooldown_seconds job.last_action_at)) [
    | inl b ↦
        rw (a, b, kept_timer-is_met v since a)
          (apply_all-finish_job ws now JobResult.cooldown none job.last_action_at job)
    | inr b ↦
        rw (a, b, kept_timer-is_met v since a)
          (decided-stored now job ws decision executor has_notifier)
  ]
  | inr a ↦
      rw a
        (apply_all-finish_job ws now JobResult.waiting (kept_timer v since) job.last_action_at job)
]

pub record Firing : Type 0 where
  pub now : ℕ
  pub is_found : Bool
  pub server : Server
  pub decision : ActionResult
  pub executor : Executor
  pub has_notifier : Bool

-- The stored job, the times at which its action succeeded, and every firing with whether the
-- condition held, the latest first.
pub record World : Type 0 where
  pub job : Job
  pub runs : List ℕ
  pub history : List (ℕ × Bool)

module _ (test : Text → ConditionEnv → Tested) where
  unfoldable pub executed : Firing → Job → Executed
  executed f job =
      execute_job test f.now job f.is_found f.server f.decision f.executor f.has_notifier

  unfoldable pub fire : Firing → World → World
  unfolding executed ran
  fire f w =
      let e = executed f w.job in
      record {
        job = apply_all e.writes w.job;
        runs = if ran e f.executor then f.now ∷ w.runs else w.runs;
        history =
            if f.is_found then (f.now, holds test f.now w.job f.server) ∷ w.history else w.history;
      }

  unfoldable pub fire_all : List Firing → World → World
  unfolding fire
  fire_all [] w = w
  fire_all (f ∷ fs) w = fire_all fs (fire f w)

  pub execute_job-stored :
      (f : Firing) (job : Job)
      → f.is_found ≡ true
      → apply_all (executed f job).writes job
        ≡ with_runtime job
            (let r = evaluate_condition test f.now job f.server in kept_timer r.0 r.1)
            (acted (ran (executed f job) f.executor) f.now job.last_action_at)
  unfolding executed execute_job
  execute_job-stored f job h =
      let r = evaluate_condition test f.now job f.server in
      rw h (judged-stored f.now job r.0 r.1 r.2 f.decision f.executor f.has_notifier)

  pub execute_job-unfound :
      (f : Firing) (job : Job)
      → f.is_found ≡ false
      → (apply_all (executed f job).writes job ≡ job) × (ran (executed f job) f.executor ≡ false)
  unfolding executed execute_job apply_all ran
  execute_job-unfound f job h = rw h (refl, refl)

  pub called-ran :
      (f : Firing) (job : Job)
      → ran (executed f job) f.executor ≡ true
      → (executed f job).called ≡ true
  unfolding ran
  called-ran f job h = ground (arith, h)

  -- An action that is called for is not in its cooldown, and its condition held for its time.
  pub called-checked :
      (f : Firing) (job : Job)
      → (executed f job).called ≡ true
      → (in_cooldown f.now job.cooldown_seconds job.last_action_at ≡ false)
        × (f.is_found ≡ true)
        × (holds test f.now job f.server ≡ true)
        × (is_due f.now job ≡ true)
  unfolding executed
  called-checked f job h =
      let e =
        called-execute_job test f.now job f.is_found f.server f.decision f.executor
          f.has_notifier in
      ground (arith, e, h)
