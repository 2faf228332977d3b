-- ===== src/Schedule/Execute.antt =====
-- `executeJob` and `finishJob`: what the scheduler does with a verdict.
use hogs.Prelude.{
  ℕ, ◌+◌, ◌*◌, ◌/◌, Bool, true, false, not, ◌&&◌, ◌||◌, Option, none, some, List, [], ◌∷◌, ◌++◌,
  String, ltb, eqb, ◌==◌, if◌then◌else◌,
}
use hogs.Engine.Constraints.{ActionResult}
use hogs.Schedule.{
  Text, second, Stamp, Job, Server, ConditionEnv, Tested, Verdict, JobResult, Write,
  evaluate_condition,
}

-- The action executor of the scheduler, with what it answers.
pub data Executor : Type 0 where
  missing done : Executor
  failing : String → Executor

-- What an evaluation does: its writes in order, whether the executor was called, and whether a
-- notification was sent.
pub record Executed : Type 0 where
  pub writes : List Write
  pub called : Bool
  pub notified : Bool

unfoldable pub is_met : Verdict → Bool
is_met Verdict.is_true = true
is_met Verdict.stable = true
is_met _ = false

-- The timer that a verdict leaves, by `executeJob` (which keeps it for a text that starts with
-- `Waiting for`) and `finishJob`.
unfoldable pub kept_timer : Verdict → Option Stamp → Option Stamp
kept_timer (Verdict.waiting_for remaining) since = since
kept_timer _ since = none

-- `finishJob` of a result, with the timer that it stores.
unfoldable pub finish_job : ℕ → JobResult → Option Stamp → Option Stamp → List Write
finish_job now result since last_action_at =
    Write.timestamps (now / second)
    ∷ Write.result result
    ∷ Write.runtime since last_action_at
    ∷ Write.log (now / second) result
    ∷ []

unfoldable pub in_cooldown : ℕ → ℕ → Option Stamp → Bool
in_cooldown now cooldown_seconds none = false
in_cooldown now cooldown_seconds (some Stamp.garbled) = false
in_cooldown now cooldown_seconds (some (Stamp.at last)) =
    not (eqb cooldown_seconds 0) && ltb now (last * second + cooldown_seconds * second)

unfoldable pub run_action : Executor → JobResult
run_action Executor.missing = JobResult.error "No lifecycle action executor is configured"
run_action Executor.done = JobResult.success
run_action (Executor.failing e) = JobResult.error e

unfoldable pub is_configured : Executor → Bool
is_configured Executor.missing = false
is_configured _ = true

unfoldable pub succeeds : Executor → Bool
succeeds Executor.done = true
succeeds _ = false

unfoldable pub refusal : String → JobResult
refusal result =
    if result == "blocked"
    then JobResult.blocked
    else if result == "denied"
    then JobResult.denied
    else if result == "queued"
    then JobResult.queued
    else JobResult.unexpected result

-- From the engine's decision on.
unfoldable pub decided : ℕ → Job → ActionResult → Executor → Bool → Executed
unfolding run_action is_configured succeeds refusal finish_job
decided now job decision executor has_notifier =
    let acted_at =
      if succeeds executor then some (Stamp.at (now / second)) else job.last_action_at in
    let is_refused = decision.result == "blocked" || decision.result == "denied" in
    if decision.result == "allowed"
    then record {
      writes = finish_job now (run_action executor) none acted_at;
      called = is_configured executor;
      notified = false;
    }
    else record {
      writes = finish_job now (refusal decision.result) none job.last_action_at;
      called = false;
      notified = has_notifier && is_refused;
    }

abbrev stopped : List Write → List Write → Executed
stopped writes w = record { writes = writes ++ w; called = false; notified = false }

-- From the verdict on.
unfoldable pub judged :
    ℕ → Job → Verdict × Option Stamp × List Write → ActionResult → Executor → Bool → Executed
unfolding is_met kept_timer finish_job in_cooldown decided
judged now job (verdict, since, writes) decision executor has_notifier =
    let go = decided now job decision executor has_notifier in
    if not (is_met verdict)
    then stopped writes
        (finish_job now JobResult.waiting (kept_timer verdict since) job.last_action_at)
    else if in_cooldown now job.cooldown_seconds job.last_action_at
    then stopped writes (finish_job now JobResult.cooldown none job.last_action_at)
    else record go { writes = writes ++ go.writes }

-- `executeJob`, where its server is found or not.
unfoldable pub execute_job :
    (Text → ConditionEnv → Tested)
    → ℕ
    → Job
    → Bool
    → Server
    → ActionResult
    → Executor
    → Bool
    → Executed
unfolding judged evaluate_condition
execute_job test now job is_found server decision executor has_notifier =
    if is_found
    then judged now job (evaluate_condition test now job server) decision executor has_notifier
    else record { writes = []; called = false; notified = false }

-- The store's row of a job after a write.
unfoldable pub apply : Write → Job → Job
apply (Write.runtime since last) job = record job {
  condition_true_since = since;
  last_action_at = last;
}
apply _ job = job

unfoldable pub apply_all : List Write → Job → Job
unfolding apply
apply_all [] job = job
apply_all (w ∷ ws) job = apply_all ws (apply w job)
