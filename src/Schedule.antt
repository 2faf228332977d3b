-- ===== src/Schedule.antt =====
-- cron/scheduler.go: one evaluation of an automation rule. A time is a number of nanoseconds, a
-- stored timestamp one of whole seconds (RFC 3339), a text the list of its code points. What the
-- store, the status cache, the expression library, the policy engine and the action executor answer
-- during the evaluation is given; the writes to the store are listed, and their errors ignored, as
-- the code ignores them. The texts that the code tells apart by their prefix are constructors.
pub mod Execute
pub mod Verdicts
pub mod Runs
pub mod Spacing
pub mod Stability
mod Tests
use hogs.Prelude.{
  ℕ, suc, ◌+◌, ◌-◌, ◌*◌, ◌/◌, Bool, true, false, not, ◌&&◌, ◌||◌, Option, none, some, List, [], ◌∷◌,
  ◌++◌, String, leb, ltb, eqb, ◌==◌, if◌then◌else◌,
}
use hogs.Prelude.Text.{codes}
use hogs.Engine.Constraints.{ActionResult}

abbrev pub Text : Type 0
Text = List ℕ

abbrev pub second : ℕ
second = 1000000000

-- A column that holds a timestamp, or a text that is none.
pub data Stamp : Type 0 where
  at : ℕ → Stamp
  garbled : Stamp

pub record Job : Type 0 where
  pub condition : Text
  pub stability_seconds : ℕ
  pub cooldown_seconds : ℕ
  pub condition_true_since : Option Stamp
  pub last_action_at : Option Stamp

-- The cached status of the server, with its age in nanoseconds (0 for one of the future).
pub record Telemetry : Type 0 where
  pub online : Bool
  pub players : ℕ
  pub max_players : ℕ
  pub players_known : Bool
  pub age : ℕ

pub record Server : Type 0 where
  pub management_id : String
  pub name : String
  pub status : Option Telemetry

-- `ActivityEnv`
pub record Activity : Type 0 where
  pub online : Bool
  pub players : ℕ
  pub max_players : ℕ
  pub players_known : Bool
  pub fresh : Bool
  pub observation_age_seconds : ℕ

pub record ServerEnv : Type 0 where
  pub id : String
  pub name : String
  pub running : Bool

-- What a condition reads: the server, the activity, and the time, which gives the hour and the day.
pub record ConditionEnv : Type 0 where
  pub server : ServerEnv
  pub activity : Activity
  pub now : ℕ

-- `TestExpression`: an error, a value that is no Boolean, or one that is.
pub data Tested : Type 0 where
  fails : String → Tested
  no_boolean : Tested
  value : Bool → Tested

-- How a condition comes out.
pub data Verdict : Type 0 where
  telemetry_unavailable not_boolean is_false is_true timer_initializing stable : Verdict
  condition_error : String → Verdict
  waiting_for : ℕ → Verdict

pub data JobResult : Type 0 where
  waiting cooldown success blocked denied queued : JobResult
  error : String → JobResult
  unexpected : String → JobResult

pub data Write : Type 0 where
  timestamps : ℕ → Write
  result : JobResult → Write
  runtime : Option Stamp → Option Stamp → Write
  log : ℕ → JobResult → Write

is_space : ℕ → Bool
is_space c = eqb c 32 || (leb 9 c && leb c 13) || eqb c 133 || eqb c 160

drop_space : Text → Text
unfolding is_space
drop_space [] = []
drop_space (c ∷ cs) = let rest = drop_space cs in if is_space c then rest else c ∷ cs

reverse_onto : Text → Text → Text
reverse_onto [] ys = ys
reverse_onto (x ∷ xs) ys = reverse_onto xs (x ∷ ys)

-- `strings.TrimSpace`, for the spaces of Latin-1
unfoldable pub trim_space : Text → Text
unfolding drop_space reverse_onto
trim_space s = reverse_onto (drop_space (reverse_onto (drop_space s) [])) []

is_prefix : Text → Text → Bool
is_prefix [] ys = true
is_prefix (x ∷ xs) [] = false
is_prefix (x ∷ xs) (y ∷ ys) = eqb x y && is_prefix xs ys

-- `strings.Contains`, the part first
unfoldable pub contains : Text → Text → Bool
unfolding is_prefix
contains part [] = is_prefix part []
contains part (c ∷ cs) = is_prefix part (c ∷ cs) || contains part cs

or_true : Text → Text
or_true [] = codes "true"
or_true (c ∷ cs) = c ∷ cs

unfoldable pub condition_of : Job → Text
unfolding trim_space or_true
condition_of job = or_true (trim_space job.condition)

unfoldable pub activity_of : Option Telemetry → Activity
activity_of none = record {
  online = false;
  players = 0;
  max_players = 0;
  players_known = false;
  fresh = false;
  observation_age_seconds = 0;
}
activity_of (some t) = record {
  online = t.online;
  players = t.players;
  max_players = t.max_players;
  players_known = t.players_known;
  fresh = leb t.age (45 * second);
  observation_age_seconds = t.age / second;
}

unfoldable pub env_of : ℕ → Server → ConditionEnv
unfolding activity_of
env_of now server =
    let activity = activity_of server.status in
    record {
      server = record {
        id = server.management_id;
        name = server.name;
        running = activity.online && activity.fresh;
      };
      activity = activity;
      now = now;
    }

unfoldable pub uses_occupancy : Text → Bool
unfolding contains
uses_occupancy condition =
    contains (codes "activity.Players") condition
    || contains (codes "activity.MaxPlayers") condition

-- The players are asked for, and are not known from a fresh status.
unfoldable pub is_unavailable : Text → Activity → Bool
unfolding uses_occupancy
is_unavailable condition activity =
    uses_occupancy condition && (not activity.fresh || not activity.players_known)

-- What the timer says of a condition that is true.
unfoldable pub timer : ℕ → ℕ → Stamp → Verdict
timer stability now Stamp.garbled = Verdict.timer_initializing
timer stability now (Stamp.at since) =
    let due = since * second + stability * second in
    if ltb now due then Verdict.waiting_for (due - now) else Verdict.stable

unfoldable pub start_timer : ℕ → Option Stamp → Stamp
start_timer now none = Stamp.at (now / second)
start_timer now (some since) = since

-- The verdict on a job, the timer that is left, and the writes.
unfoldable pub timed : ℕ → Job → Verdict × Option Stamp × List Write
unfolding timer start_timer
timed now job =
    let since = start_timer now job.condition_true_since in
    if eqb job.stability_seconds 0 then (Verdict.is_true, job.condition_true_since, []) else (
      timer job.stability_seconds now since,
      some since,
      elim job.condition_true_since [
        | none ↦ Write.runtime (some since) job.last_action_at ∷ []
        | some old ↦ []
      ],
    )

unfoldable pub tested : ℕ → Job → Tested → Verdict × Option Stamp × List Write
unfolding timed
tested now job (Tested.fails e) = (Verdict.condition_error e, job.condition_true_since, [])
tested now job Tested.no_boolean = (Verdict.not_boolean, job.condition_true_since, [])
tested now job (Tested.value false) = (Verdict.is_false, job.condition_true_since, [])
tested now job (Tested.value true) = timed now job

-- `evaluateCondition`, with the expression library's answer to a condition.
unfoldable pub evaluate_condition :
    (Text → ConditionEnv → Tested) → ℕ → Job → Server → Verdict × Option Stamp × List Write
unfolding tested condition_of env_of is_unavailable
evaluate_condition test now job server =
    let condition = condition_of job in
    let env = env_of now server in
    if is_unavailable condition env.activity
    then (Verdict.telemetry_unavailable, job.condition_true_since, [])
    else tested now job (test condition env)
