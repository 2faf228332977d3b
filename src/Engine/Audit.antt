-- ===== src/Engine/Audit.antt =====
-- What the evaluation of an action allows, and that the audit log says so.
use hogs.Prelude.{
  ℕ, String, Bool, true, false, not, ◌&&◌, ◌||◌, List, [], ◌∷◌, Option, none, some, ◌==◌, ◌≡◌, refl,
  arith, Bool-cases, inl, inr, eq_iff,
}
use hogs.Prelude.Fallible.{Result, ok, err}
use hogs.Access.{evaluate_server_access}
use hogs.Access.Rule.{permits}
use hogs.Engine.Env.{Server, UserEnv, Env}
use hogs.Engine.Constraints.{
  Constraint, Outcome, ActionResult, check_all, list_enabled_constraints_for_server,
  evaluate_constraints,
}
use hogs.Engine.Evaluate.{
  stopped, linked, authorized, constrained, PterodactylLink, Reads, AuditEntry, Evaluation,
  is_action_allowed, capability_of, is_staff, evaluate_acl, evaluate,
}

check_all-result :
    (outcome : Constraint → Outcome) (l : List Constraint)
    → (check_all outcome l).allowed ≡ false
    → (check_all outcome l).result ≡ "blocked"
unfolding check_all
check_all-result outcome [] h = cc
check_all-result outcome (c ∷ l) h = ground (arith, check_all-result outcome l)

-- The link is found and its allow-list has the action.
abbrev pub listed : Result String (Option PterodactylLink) → String → Bool
listed (ok (some link)) action = is_action_allowed link.allowed_actions action
listed _ action = false

-- A check that ended without an error and does not allow the action.
abbrev pub is_block : Result String ActionResult → Bool
is_block (ok result) = not result.allowed
is_block (err e) = false

-- May the user do the action by the link's allow-list and the grants.
abbrev pub entitled : Reads → String → Option UserEnv → Bool
entitled reads action none = false
entitled reads action (some user) =
    listed reads.link action
    && (is_staff user
        || permits
            (evaluate_server_access reads.grants user.username user.groups (capability_of action)))

-- An action is allowed exactly when the server's link lists it, the user is known and is staff or
-- has a grant of the capability (a deny counts against it), and the constraints do not block it; a
-- constraint check that ends in an error does not block.
pub evaluate-allowed :
    (run : String → Env → Outcome) (reads : Reads) (notifier : Bool) (server : Server)
    (action : String) (user : Option UserEnv)
    → (evaluate run reads notifier server action user).result.allowed ≡ (
        entitled reads action user
        && not (is_block (evaluate_constraints run reads.constraints reads.env server.id action)))
unfolding evaluate evaluate_acl
evaluate-allowed run reads notifier server action none = ground arith
evaluate-allowed run reads notifier server action (some user) = ground arith

-- The entry has the returned result and, where the action is not allowed, the returned reason; the
-- result is `allowed` exactly when the action is; what is neither allowed nor blocked is not sent.
pub record IsAudited (e : Evaluation) : Type 0 where
  pub same_result : e.audit.result ≡ e.result.result
  pub same_reason : e.result.allowed ≡ false → e.audit.reason ≡ e.result.reason
  pub allowed_name : (e.result.result == "allowed") ≡ e.result.allowed
  pub quiet : (e.result.result == "allowed" || e.result.result == "blocked") ≡ false → e.sent ≡ []

evaluate_constraints-result :
    (run : String → Env → Outcome) (rows : Result String (List Constraint))
    (env : Result String Env) (id : ℕ) (action : String) (result : ActionResult)
    → evaluate_constraints run rows env id action ≡ ok result
    → result.allowed ≡ false
    → result.result ≡ "blocked"
unfolding evaluate_constraints
evaluate_constraints-result run (err e) env id action result h b = cc
evaluate_constraints-result run (ok rows) (err e) id action result h b = cc
evaluate_constraints-result run (ok rows) (ok env) id action result h b =
    let outcome = λ (c : Constraint). run c.condition (record env { action = action }) in
    ground (
      arith,
      check_all-result outcome
          (unfold evaluate_constraints in list_enabled_constraints_for_server id rows),
    )

module _ (notifier : Bool) (entry : AuditEntry) (fresh : entry.result ≡ "allowed") where
  constrained-IsAudited :
      (checked : Result String ActionResult)
      → ((result : ActionResult)
          → checked ≡ ok result
          → result.allowed ≡ false
          → result.result ≡ "blocked")
      → IsAudited (constrained notifier entry (stopped checked))
  unfolding constrained stopped
  constrained-IsAudited (err e) h = ground arith
  constrained-IsAudited (ok result) h = elim (Bool-cases result.allowed) [
    | inl e ↦ rw e (ground arith)
    | inr e ↦ rw e (
        let b = h result refl e in
        let n : (result.result == "allowed") ≡ false = rw b refl in
        ground (arith, n, eq_iff result.result "blocked"))
  ]

  authorized-IsAudited :
      (run : String → Env → Outcome) (reads : Reads) (server : Server) (user : Option UserEnv)
      (checked : Result String Bool)
      → IsAudited (authorized run reads notifier server user entry checked)
  unfolding authorized
  authorized-IsAudited run reads server user (err e) = ground arith
  authorized-IsAudited run reads server user (ok false) = ground arith
  authorized-IsAudited run reads server user (ok true) =
      constrained-IsAudited
        (evaluate_constraints run reads.constraints reads.env server.id entry.action)
        (evaluate_constraints-result run reads.constraints reads.env server.id entry.action)

  linked-IsAudited :
      (run : String → Env → Outcome) (reads : Reads) (server : Server) (user : Option UserEnv)
      (link : Result String (Option PterodactylLink))
      → IsAudited (linked run reads notifier server user entry link)
  unfolding linked
  linked-IsAudited run reads server user (err e) = ground arith
  linked-IsAudited run reads server user (ok none) = ground arith
  linked-IsAudited run reads server user (ok (some link)) =
      authorized-IsAudited run reads server user (evaluate_acl reads (some link) entry.action user)

-- Every evaluation of an action is audited: on each path, errors included, the entry that `Evaluate`
-- writes to the audit log has the result that it returns, its reason where the action is not
-- allowed, and the result is named `allowed` exactly when the action is allowed; a notification is
-- sent only for a result `allowed` or `blocked`.
pub evaluate-IsAudited :
    (run : String → Env → Outcome) (reads : Reads) (notifier : Bool) (server : Server)
    (action : String) (user : Option UserEnv)
    → IsAudited (evaluate run reads notifier server action user)
unfolding evaluate
evaluate-IsAudited run reads notifier server action user =
    linked-IsAudited notifier _ refl run reads server user reads.link
