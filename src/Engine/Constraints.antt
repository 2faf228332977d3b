-- ===== src/Engine/Constraints.antt =====
-- Constraints: the query `ListEnabledConstraintsForServer` of database/database.go and the loop
-- `EvaluateConstraints` of engine/engine.go.
use hogs.Engine.Env.{Env}
use hogs.Prelude.Fallible.{Result, ok, ◌>>=◌}
use hogs.Prelude.{
  not, ℕ, String, Bool, true, false, ◌&&◌, List, [], ◌∷◌, Option, none, some, eqb, ltb, keep, ◌==◌,
  if◌then◌else◌,
}
use Prim.Native.String.{◌++◌}

-- Of a priority, which may be negative in the source, only the order matters.
pub record Constraint : Type 0 where
  pub id : ℕ
  pub server_id : Option ℕ  -- `none` is an instance-wide constraint
  pub name : String
  pub condition : String
  pub mode : String
  pub strategy : String
  pub priority : ℕ
  pub enabled : Bool

abbrev pub is_global : Option ℕ → Bool
is_global none = true
is_global (some id) = false

-- WHERE enabled=1 AND (server_id IS NULL OR server_id=?)
abbrev concerns : ℕ → Option ℕ → Bool
concerns server_id none = true
concerns server_id (some id) = eqb id server_id

abbrev pub in_scope : ℕ → Constraint → Bool
in_scope server_id c = c.enabled && concerns server_id c.server_id

-- ORDER BY priority DESC, server_id IS NOT NULL, id: does `c` stand strictly before `d`.
unfoldable pub before : Constraint → Constraint → Bool
before c d =
    if eqb c.priority d.priority
    then (if is_global c.server_id
        then (if is_global d.server_id then ltb c.id d.id else true)
        else (if is_global d.server_id then false else ltb c.id d.id))
    else ltb d.priority c.priority

unfoldable pub insert : Constraint → List Constraint → List Constraint
insert c [] = c ∷ []
insert c (d ∷ rest) = let on = insert c rest in if before d c then d ∷ on else c ∷ d ∷ rest

unfoldable pub sort : List Constraint → List Constraint
sort [] = []
sort (c ∷ rest) = insert c (sort rest)

-- The rows of the table, as the query selects and orders them.
unfoldable pub list_enabled_constraints_for_server : ℕ → List Constraint → List Constraint
unfolding sort insert before
list_enabled_constraints_for_server server_id table = sort (keep (in_scope server_id) table)

pub record ActionResult : Type 0 where
  pub allowed : Bool
  pub result : String
  pub reason : String
  pub status : ℕ

-- What the expression library makes of a condition.
pub data Outcome : Type 0 where
  compile_error run_error : Outcome
  boolean : Bool → Outcome
  other_value : Outcome

unfoldable pub constraint_strategy_status : String → ℕ
constraint_strategy_status strategy =
    if strategy == "deny"
    then 409
    else if strategy == "queue"
    then 202
    else if strategy == "stop_oldest"
    then 200
    else 409

-- `%q`, for a name with nothing to escape
abbrev pub quoted : String → String
quoted name = "\"" ++ (name ++ "\"")

abbrev pub exempted_by : Constraint → ActionResult
exempted_by c = record {
  allowed = true;
  result = "exempted";
  reason =
      "Constraint " ++ (quoted c.name ++ " exempted this action from lower-priority constraints");
  status = 200;
}

abbrev pub blocked_by : Constraint → ActionResult
blocked_by c = record {
  allowed = false;
  result = "blocked";
  reason =
      "Constraint "
      ++ (quoted c.name ++ (" blocked this action (strategy: " ++ (c.strategy ++ ")")));
  status = constraint_strategy_status c.strategy;
}

abbrev pub passed_all : ActionResult
passed_all = record { allowed = true; result = "allowed"; reason = ""; status = 200 }

abbrev pub holds : Outcome → Bool
holds (boolean b) = b
holds _ = false

abbrev pub fails : Outcome → Bool
fails (boolean b) = not b
fails _ = false

-- The two early returns of the loop. A condition that does not evaluate to a Boolean does neither:
-- it is skipped with a warning.
abbrev pub exempts : (Constraint → Outcome) → Constraint → Bool
exempts outcome c = c.mode == "exempt" && holds (outcome c)

abbrev pub blocks : (Constraint → Outcome) → Constraint → Bool
blocks outcome c = not (c.mode == "exempt") && fails (outcome c)

-- The loop over the listed constraints.
unfoldable pub check_all : (Constraint → Outcome) → List Constraint → ActionResult
check_all outcome [] = passed_all
check_all outcome (c ∷ rest) =
    let on = check_all outcome rest in
    if exempts outcome c then exempted_by c else if blocks outcome c then blocked_by c else on

-- `EvaluateConstraints`, over the rows of the table (or the error of reading them), the outcome of
-- `buildEnv` and the evaluator of the expression library.
unfoldable pub evaluate_constraints :
    (String → Env → Outcome)
    → Result String (List Constraint)
    → Result String Env
    → ℕ
    → String
    → Result String ActionResult
unfolding list_enabled_constraints_for_server check_all
evaluate_constraints run table built server_id action = do
  rows ← table
  env ← built
  ok (
      check_all (λ c. run c.condition (record env { action = action }))
        (list_enabled_constraints_for_server server_id rows))
