-- ===== src/Access/Rule.antt =====
-- The decision of `EvaluateServerAccess` against its rule: a deny that applies wins, wherever it
-- stands in the list; otherwise a grant that applies allows.
use mathlib.Core.List.{Perm}
use text.Mathlib.TextLemmas.{append-ne-nil_of_right_ne-nil, cons≢nil, cons-append}
use Prim.Native.String.{◌++◌}
use hogs.Prelude.{
  String, Bool, false, not, ◌&&◌, ◌||◌, List, [], ◌∷◌, ◌≡◌, ◌≢◌, refl, sym, ◌∙◌, arith, ◌==◌, any,
  eq_iff, if◌then◌else◌, Bool-cases, inl, inr, any-perm,
}
use hogs.Prelude.Fallible.{Result, ok, err}
use hogs.Access.{
  Grant, Decision, Scan, denied, allowed_by, grants, applies, matched_by, scan_capabilities, after,
  scan_grants, conclude, decide_on, evaluate_server_access,
}

-- The grant applies to the user and covers the capability.
abbrev pub bears_on : String → List String → String → Grant → Bool
bears_on username groups capability grant =
    applies username groups grant && any (λ granted. grants granted capability) grant.capabilities

abbrev pub denies : String → List String → String → Grant → Bool
denies username groups capability grant =
    bears_on username groups capability grant && grant.effect == "deny"

abbrev pub allows : String → List String → String → Grant → Bool
allows username groups capability grant =
    bears_on username groups capability grant && not (grant.effect == "deny")

separated : (subject : String) → ":" ++ subject ≢ ""
separated subject e = cons≢nil (sym (cons-append _ "" subject) ∙ e)

matched_by_ne : (grant : Grant) → matched_by grant == "" ≡ false
matched_by_ne grant = elim (Bool-cases (matched_by grant == "")) [
  | inl e ↦ absurd (
      append-ne-nil_of_right_ne-nil grant.subject_type (separated grant.subject)
        ((eq_iff (matched_by grant) "").0 e))
  | inr e ↦ e
]

scan_capabilities_lem :
    (grant : Grant) (capability : String) (list : List String) (by : String)
    → scan_capabilities grant capability list by ≡ (
        if any (λ granted. grants granted capability) list
        then (if grant.effect == "deny"
            then denied (matched_by grant)
            else allowed_by (matched_by grant))
        else allowed_by by)
unfolding scan_capabilities
scan_capabilities_lem grant capability [] by = refl
scan_capabilities_lem grant capability (granted ∷ rest) by = ground (
  arith,
  scan_capabilities_lem grant capability rest by,
  scan_capabilities_lem grant capability rest (matched_by grant),
)

abbrev passes : Scan → Bool
passes (denied by) = false
passes (allowed_by by) = not (by == "")

passes-scan_grants :
    (username : String) (groups : List String) (capability : String) (list : List Grant)
    (by : String)
    → passes (scan_grants username groups capability list by) ≡ (
        (not (by == "") || any (allows username groups capability) list)
        && not (any (denies username groups capability) list))
unfolding scan_grants after
passes-scan_grants username groups capability [] by = ground arith
passes-scan_grants username groups capability (grant ∷ rest) by = ground (
  arith,
  scan_capabilities_lem grant capability grant.capabilities by,
  matched_by_ne grant,
  passes-scan_grants username groups capability rest by,
  passes-scan_grants username groups capability rest (matched_by grant),
)

abbrev pub permits : Result String Decision → Bool
permits (ok decision) = decision.allowed
permits (err e) = false

-- Of a list of grants read without an error, the decision allows a capability exactly when some
-- grant that is no deny applies to the user and covers it, and no deny does.
pub evaluate_server_access-deny_wins :
    (list : List Grant) (username : String) (groups : List String) (capability : String)
    → permits (evaluate_server_access (ok list) username groups capability) ≡ (
        any (allows username groups capability) list
        && not (any (denies username groups capability) list))
unfolding evaluate_server_access decide_on conclude
evaluate_server_access-deny_wins [] username groups capability = refl
evaluate_server_access-deny_wins (grant ∷ rest) username groups capability =
    ground (arith, passes-scan_grants username groups capability (grant ∷ rest) "")

-- The order in which the database lists the grants does not change whether the user is allowed.
pub evaluate_server_access-perm :
    {list list' : List Grant} (username : String) (groups : List String) (capability : String)
    → Perm list list'
    → permits (evaluate_server_access (ok list) username groups capability)
      ≡ permits (evaluate_server_access (ok list') username groups capability)
evaluate_server_access-perm {list} {list'} username groups capability h = simp (
  evaluate_server_access-deny_wins,
  any-perm (allows username groups capability) h,
  any-perm (denies username groups capability) h,
)
