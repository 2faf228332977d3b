-- ===== src/Engine/Evaluate.antt =====
-- Whether an action is allowed: `EvaluateACL`, `Evaluate` with the audit entry that it always
-- writes, and `EvaluateVisibility`.
use Prim.Native.String.{◌++◌}
use hogs.Prelude.{
  ℕ, String, Bool, true, false, not, ◌&&◌, ◌||◌, List, [], ◌∷◌, Option, none, some, ◌==◌,
  if◌then◌else◌,
}
use hogs.Prelude.Fallible.{Result, ok, err}
use hogs.Access.{Grant, Decision, evaluate_server_access}
use hogs.Engine.Env.{Server, UserEnv, Env, in_list}
use hogs.Engine.Constraints.{evaluate_constraints, Outcome, Constraint, ActionResult}

-- The management row of a server. `allowed_actions` is the decoded JSON list of the column, `none`
-- where it does not decode.
pub record PterodactylLink : Type 0 where
  pub node : String
  pub allowed_actions : Option (List String)

-- What the store and `buildEnv` answer while one action of one server is evaluated.
pub record Reads : Type 0 where
  pub link : Result String (Option PterodactylLink)
  pub grants : Result String (List Grant)
  pub constraints : Result String (List Constraint)
  pub env : Result String Env

-- The parts of the audit entry that the evaluation decides; the time, the parameters and the
-- address are copied.
pub record AuditEntry : Type 0 where
  pub action : String
  pub server_name : String
  pub user : String
  pub result : String
  pub reason : String
  pub source : String

-- What `Evaluate` returns and does: its result, the entry written to the audit log, and the type
-- and text of each notification sent.
pub record Evaluation : Type 0 where
  pub result : ActionResult
  pub audit : AuditEntry
  pub sent : List (String × String)

abbrev pub is_action_allowed : Option (List String) → String → Bool
is_action_allowed none action = false
is_action_allowed (some actions) action = in_list actions action

abbrev pub capability_of : String → String
capability_of action = if action == "whitelist" then "server.join" else action

abbrev pub is_staff : UserEnv → Bool
is_staff user = user.role == "admin" || user.role == "system"

decided : Result String Decision → Bool → Result String Bool
decided (ok decision) action_allowed = ok (decision.allowed && action_allowed)
decided (err e) action_allowed = err ("evaluate server access: " ++ e)

-- `EvaluateACL`; no link and no user is no access.
unfoldable pub evaluate_acl :
    Reads → Option PterodactylLink → String → Option UserEnv → Result String Bool
unfolding decided
evaluate_acl reads none action user = ok false
evaluate_acl reads (some link) action none = ok false
evaluate_acl reads (some link) action (some user) =
    if is_staff user
    then ok (is_action_allowed link.allowed_actions action)
    else decided
        (evaluate_server_access reads.grants user.username user.groups (capability_of action))
        (is_action_allowed link.allowed_actions action)

source_of : Option UserEnv → String
source_of none = "web"
source_of (some user) =
    if user.username == "system" && user.role == "system"
    then "cron"
    else if user.username == "" && user.role == "admin"
    then "api"
    else "web"

audited_user : Option UserEnv → String
audited_user none = "anonymous"
audited_user (some user) = if user.username == "" then "anonymous" else user.username

plain_denial : String → String
plain_denial action = "access denied for capability " ++ capability_of action

reason_of : String → Result String Decision → String
unfolding plain_denial
reason_of action (ok decision) = decision.reason
reason_of action (err e) = plain_denial action

-- The reason of a denial: that of the access decision for a user to whom grants apply.
denial_reason : Reads → String → Option UserEnv → String
unfolding reason_of
denial_reason reads action none = plain_denial action
denial_reason reads action (some user) =
    if not (is_staff user)
    then reason_of action
        (evaluate_server_access reads.grants user.username user.groups (capability_of action))
    else plain_denial action

abbrev failed : String → ℕ → ActionResult
failed reason status = record {
  allowed = false;
  result = "error";
  reason = reason;
  status = status;
}

-- The result of the constraints that stops the action; an error of theirs is only logged.
unfoldable pub stopped : Result String ActionResult → Option ActionResult
stopped (ok result) = if not result.allowed then some result else none
stopped (err e) = none

-- `Notifier.Send`, which a missing notifier skips.
send : Bool → String → String → List (String × String)
send notifier kind message = if notifier then (kind, message) ∷ [] else []

-- Behind the access check.
unfoldable pub constrained : Bool → AuditEntry → Option ActionResult → Evaluation
unfolding send
constrained notifier entry (some result) = record {
  result = result;
  audit = record entry { result = "blocked"; reason = result.reason };
  sent = send notifier "constraint_violation" (
      "Constraint blocked action "
      ++ (entry.action ++ (" on server " ++ (entry.server_name ++ (": " ++ result.reason)))));
}
constrained notifier entry none = record {
  result = record { allowed = true; result = "allowed"; reason = ""; status = 200 };
  audit = entry;
  sent = send notifier ("server_" ++ entry.action) (
      "Action "
      ++ (entry.action ++ (" on server " ++ (entry.server_name ++ (" by " ++ entry.user)))));
}

-- Behind the lookup of the link.
unfoldable pub authorized :
    (String → Env → Outcome)
    → Reads
    → Bool
    → Server
    → Option UserEnv
    → AuditEntry
    → Result String Bool
    → Evaluation
unfolding constrained stopped denial_reason
authorized run reads notifier server user entry (err e) = record {
  result = failed e 0;
  audit = record entry { result = "error"; reason = e };
  sent = [];
}
authorized run reads notifier server user entry (ok false) =
    let audit = record entry {
      result = "denied";
      reason = denial_reason reads entry.action user;
    } in
    record {
      result = record { allowed = false; result = "denied"; reason = audit.reason; status = 403 };
      audit = audit;
      sent = [];
    }
authorized run reads notifier server user entry (ok true) =
    constrained notifier entry
      (stopped (evaluate_constraints run reads.constraints reads.env server.id entry.action))

unfoldable pub linked :
    (String → Env → Outcome)
    → Reads
    → Bool
    → Server
    → Option UserEnv
    → AuditEntry
    → Result String (Option PterodactylLink)
    → Evaluation
unfolding authorized
linked run reads notifier server user entry (err e) = record {
  result = failed e 0;
  audit = record entry { result = "error"; reason = e };
  sent = [];
}
linked run reads notifier server user entry (ok none) = record {
  result = failed "no pterodactyl link" 404;
  audit = record entry { result = "error"; reason = "no pterodactyl link" };
  sent = [];
}
linked run reads notifier server user entry (ok (some link)) =
    authorized run reads notifier server user entry
      (evaluate_acl reads (some link) entry.action user)

-- `Evaluate`, with the evaluator of expressions and whether there is a notifier. The entry is
-- written when the function returns, on every path.
unfoldable pub evaluate :
    (String → Env → Outcome) → Reads → Bool → Server → String → Option UserEnv → Evaluation
unfolding linked source_of audited_user
evaluate run reads notifier server action user =
    linked run reads notifier server user
      (record {
        action = action;
        server_name = server.name;
        user = audited_user user;
        result = "allowed";
        reason = "authorized by server access policy";
        source = source_of user;
      })
      reads.link

shown : Result String ActionResult → Bool
shown (ok result) = result.allowed
shown (err e) = true

-- `EvaluateVisibility`: visible on an error.
unfoldable pub evaluate_visibility :
    (String → Env → Outcome) → Reads → Server → Option UserEnv → Bool
unfolding shown
evaluate_visibility run reads server none =
    if server.state == "offline"
    then false
    else shown (evaluate_constraints run reads.constraints reads.env server.id "view")
evaluate_visibility run reads server (some user) =
    shown (evaluate_constraints run reads.constraints reads.env server.id "view")
