-- ===== src/Engine/Priority.antt =====
-- What the priorities of the constraints decide, stated of the rows of the table.
use hogs.Prelude.{
  ℕ, String, Bool, true, false, not, ◌&&◌, ◌||◌, List, [], ◌∷◌, Option, none, some, any, all, keep,
  ◌≡◌, refl, ap, sym, ◌∙◌, arith,
}
use hogs.Prelude.Fallible.{Result, ok, err}
use hogs.Engine.Env.{Env}
use hogs.Engine.Constraints.{
  Constraint, Outcome, ActionResult, in_scope, before, list_enabled_constraints_for_server, exempts,
  blocks, evaluate_constraints,
}
use hogs.Engine.Order.{
  Sorted, sort-Sorted, any-listed, all-listed, unshielded, shields, check_all-unshielded,
  check_all-shields,
}

-- Does an evaluation without an error allow the action.
abbrev pub admits : Result String ActionResult → Option Bool
admits (ok result) = some result.allowed
admits (err e) = none

module _ (run : String → Env → Outcome) (table : List Constraint) (env : Env) (id : ℕ)
    (action : String) where
  -- The outcome of a constraint's condition for the action at hand.
  abbrev pub outcome_of : Constraint → Outcome
  outcome_of c = run c.condition (record env { action = action })

  -- A constraint of the table that is in scope and fails, such that every passing exemption in
  -- scope stands behind it.
  abbrev pub decisive_block : Constraint → Bool
  decisive_block c =
      in_scope id c
      && (blocks outcome_of c
          && all (λ d. not (in_scope id d) || (not (exempts outcome_of d) || before c d)) table)

  -- A passing exemption in scope, such that every failing constraint in scope stands behind it.
  abbrev pub decisive_exemption : Constraint → Bool
  decisive_exemption d =
      in_scope id d
      && (exempts outcome_of d
          && all (λ c. not (in_scope id c) || (not (blocks outcome_of c) || before d c)) table)

  listed_block :
      (l : List Constraint)
      → any decisive_block l
        ≡ any
            (λ c.
              in_scope id c
              && unshielded outcome_of (list_enabled_constraints_for_server id table) c)
            l
  listed_block [] = refl
  listed_block (c ∷ l) =
      ground
        (arith, listed_block l, all-listed (λ d. not (exempts outcome_of d) || before c d) id table)

  listed_exemption :
      (l : List Constraint)
      → any decisive_exemption l
        ≡ any
            (λ c.
              in_scope id c && shields outcome_of (list_enabled_constraints_for_server id table) c)
            l
  listed_exemption [] = refl
  listed_exemption (d ∷ l) = ground (
    arith,
    listed_exemption l,
    all-listed (λ c. not (blocks outcome_of c) || before d c) id table,
  )

  listed-Sorted : Sorted (list_enabled_constraints_for_server id table)
  unfolding list_enabled_constraints_for_server
  listed-Sorted = sort-Sorted (keep (in_scope id) table)

  -- An action is blocked if a constraint of the table in scope of the server fails and every
  -- exemption in scope that passes comes after it: lower priority, or server-specific beside an
  -- instance-wide one of the same priority, or a larger id. The order of the rows plays no part,
  -- nor does the strategy of the constraint: it is blocked with `stop_oldest` and `queue` too.
  pub evaluate_constraints-blocked :
      any decisive_block table ≡ true
      → admits (evaluate_constraints run (ok table) (ok env) id action) ≡ some false
  unfolding evaluate_constraints
  evaluate_constraints-blocked h = ap some (
      check_all-unshielded outcome_of _ listed-Sorted
        (any-listed _ id table ∙ sym (listed_block table) ∙ h))

  -- An action is allowed if an exemption in scope passes and every failing constraint in scope
  -- comes after it in that order.
  pub evaluate_constraints-exempted :
      any decisive_exemption table ≡ true
      → admits (evaluate_constraints run (ok table) (ok env) id action) ≡ some true
  unfolding evaluate_constraints
  evaluate_constraints-exempted h = ap some (
      check_all-shields outcome_of _ listed-Sorted
        (any-listed _ id table ∙ sym (listed_exemption table) ∙ h))
