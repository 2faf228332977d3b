-- ===== src/Engine/Tests.antt =====
-- A server with an instance-wide rule, an exemption for the night and a grant, under an evaluator
-- of conditions that reads the condition's text as its value.
use hogs.Prelude.{
  String, true, false, not, ◌&&◌, List, [], ◌∷◌, none, some, ◌==◌, if◌then◌else◌, ◌≡◌, refl,
}
use hogs.Prelude.Fallible.{ok}
use hogs.Access.{evaluate_server_access}
use hogs.Engine.Env.{Server, UserEnv, TimeEnv, Env, Rows, build_env}
use hogs.Engine.Constraints.{
  Constraint, Outcome, compile_error, boolean, before, evaluate_constraints,
}
use hogs.Engine.Priority.{admits, evaluate_constraints-blocked, evaluate_constraints-exempted}
use hogs.Engine.Evaluate.{Reads, evaluate, evaluate_acl, evaluate_visibility}
use hogs.Engine.Audit.{entitled, is_block, evaluate-allowed, IsAudited, evaluate-IsAudited}

abbrev run : String → Env → Outcome
run condition env =
    if condition == "true"
    then boolean true
    else if condition == "false"
    then boolean false
    else compile_error

abbrev valheim : Server
valheim = record {
  id = 1;
  name = "Valheim";
  game_type = "valheim";
  management_id = "valheim";
  state = "online";
}

abbrev rows : Rows
rows = record { servers = ok (valheim ∷ []); tags = λ id. none; node = λ id. some "node1" }

abbrev noon : TimeEnv
noon = record { now = 100; hour = 12; weekday = 1 }

abbrev alice : UserEnv
alice = record {
  username = "alice";
  role = "user";
  groups = "players" ∷ [];
  client_ip = "";
  country_code = "";
}

abbrev env : Env
env = record {
  server = record {
    id = 1;
    name = "Valheim";
    game_type = "valheim";
    tags = [];
    node = "node1";
    running = false;
    players = 0;
    players_known = false;
  };
  servers = [];
  user = some alice;
  time = noon;
  action = "";
}

abbrev quiet_hours : Constraint
quiet_hours = record {
  id = 1;
  server_id = none;
  name = "quiet hours";
  condition = "false";
  mode = "require";
  strategy = "deny";
  priority = 5;
  enabled = true;
}

abbrev night_shift : Constraint
night_shift = record quiet_hours {
  id = 2;
  server_id = some 1;
  name = "night shift";
  condition = "true";
  mode = "exempt";
  priority = 5;
}

abbrev broken : Constraint
broken = record quiet_hours { id = 3; condition = "1 +"; priority = 9 }

-- The exemption of the server has the priority of the instance-wide rule, so it comes too late.
late : List Constraint
late = night_shift ∷ quiet_hours ∷ broken ∷ []

evaluate_constraints-blocked_example :
    admits (evaluate_constraints run (ok late) (ok env) 1 "start") ≡ some false
unfolding late before
evaluate_constraints-blocked_example = evaluate_constraints-blocked run late env 1 "start" refl

-- With a higher priority it shields the server.
early : List Constraint
early = quiet_hours ∷ record night_shift { priority = 6 } ∷ []

evaluate_constraints-exempted_example :
    admits (evaluate_constraints run (ok early) (ok env) 1 "start") ≡ some true
unfolding early before
evaluate_constraints-exempted_example = evaluate_constraints-exempted run early env 1 "start" refl

abbrev reads : Reads
reads = record {
  link = ok (some (record { node = "node1"; allowed_actions = some ("start" ∷ "stop" ∷ []) }));
  grants = ok (
      record {
        subject_type = "group";
        subject = "players";
        effect = "allow";
        capabilities = "start" ∷ "restart" ∷ [];
      }
      ∷ []);
  constraints = ok (broken ∷ []);
  env = ok env;
}

-- Allowed by the grant and the allow-list, without the broken constraint; `restart` is granted and
-- not listed, `stop` listed and not granted.
evaluations :
    ((evaluate run reads true valheim "start" (some alice)).result.allowed ≡ true)
    × ((evaluate run reads true valheim "restart" (some alice)).result.allowed ≡ false)
    × ((evaluate run reads true valheim "stop" (some alice)).result.allowed ≡ false)
    × ((evaluate run reads true valheim "start" none).result.allowed ≡ false)
unfolding evaluate evaluate_acl evaluate_server_access evaluate_constraints
evaluations = (refl, refl, refl, refl)

evaluate-allowed_example : (evaluate run reads true valheim "start" (some alice)).result.allowed ≡ (
    entitled reads "start" (some alice)
    && not (is_block (evaluate_constraints run reads.constraints reads.env 1 "start")))
evaluate-allowed_example = evaluate-allowed run reads true valheim "start" (some alice)

evaluate-IsAudited_example : IsAudited (evaluate run reads true valheim "stop" (some alice))
evaluate-IsAudited_example = evaluate-IsAudited run reads true valheim "stop" (some alice)

env_built :
    build_env rows none noon valheim (some alice) ≡ ok (record env { servers = env.server ∷ [] })
unfolding build_env
env_built = refl

visible_to_staff : evaluate_visibility run reads valheim none ≡ true
unfolding evaluate_visibility evaluate_constraints
visible_to_staff = refl
