-- ===== src/Schedule/Tests.antt =====
-- Firings of a rule with a stability period of 60 and a cooldown of 100 seconds.
use hogs.Prelude.{
  arith, ℕ, ◌+◌, ◌*◌, ◌≤◌, eqb, not, ◌&&◌, ◌==◌, true, false, none, some, List, [], ◌∷◌, ◌++◌, ◌≡◌,
  refl,
}
use hogs.Prelude.Text.{codes}
use hogs.Schedule.{Text, second, Job, Server, ConditionEnv, Tested}
use hogs.Schedule.Execute.{Executor, succeeds, execute_job, in_cooldown, is_configured, apply_all}
use hogs.Schedule.Verdicts.{holds, is_due, called-execute_job}
use hogs.Schedule.Runs.{Firing, World, executed, fire_all}
use hogs.Schedule.Spacing.{new_rule}
use hogs.Schedule.Stability.{HeldSince, called-HeldSince}

abbrev rule : Job
rule = record {
  condition = codes "activity.Players == 0";
  stability_seconds = 60;
  cooldown_seconds = 100;
  condition_true_since = none;
  last_action_at = none;
}

abbrev empty_server : Text → ConditionEnv → Tested
empty_server condition env = Tested.value (eqb env.activity.players 0)

abbrev seen : ℕ → Server
seen players = record {
  management_id = "m1";
  name = "valheim";
  status = some (record {
    online = true;
    players = players;
    max_players = 10;
    players_known = true;
    age = 0;
  });
}

abbrev at_second : ℕ → Firing
at_second n = record {
  now = n * second;
  is_found = true;
  server = seen 0;
  decision = record { allowed = true; result = "allowed"; reason = ""; status = 200 };
  executor = Executor.done;
  has_notifier = false;
}

abbrev before : List Firing
before = at_second 1000 ∷ at_second 1030 ∷ []

abbrev waited : World
waited = fire_all empty_server before (new_rule rule)

runs_once : (fire_all empty_server (at_second 1060 ∷ []) waited).runs ≡ 1060 * second ∷ []
unfolding fire_all execute_job apply_all succeeds
runs_once = refl

-- A player in between starts the period again.
abbrev visited : World
visited =
    fire_all empty_server (before ++ record (at_second 1040) { server = seen 1 } ∷ [])
      (new_rule rule)

waits_again : (fire_all empty_server (at_second 1060 ∷ []) visited).runs ≡ []
unfolding fire_all execute_job apply_all succeeds
waits_again = refl

called-HeldSince_example :
    (since : ℕ) × HeldSince since ((1060 * second, true) ∷ waited.history)
    × (since * second + waited.job.stability_seconds * second ≤ 1060 * second)
unfolding fire_all executed execute_job apply_all succeeds
called-HeldSince_example =
    called-HeldSince empty_server before (at_second 1060) rule (omega arith) refl refl

called-execute_job_example :
    (execute_job empty_server
      (1060 * second)
      rule
      true
      (seen 3)
      (at_second 1060).decision
      Executor.done
      true).called
    ≡ (true
        && holds empty_server (1060 * second) rule (seen 3)
        && is_due (1060 * second) rule
        && not (in_cooldown (1060 * second) 100 none)
        && "allowed" == "allowed"
        && is_configured Executor.done)
called-execute_job_example =
    called-execute_job empty_server (1060 * second) rule true (seen 3) (at_second 1060).decision
      Executor.done true
