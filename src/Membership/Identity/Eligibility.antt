-- ===== src/Membership/Identity/Eligibility.antt =====
-- Who is wanted on a server, in terms of what the store says of the users.
use mathlib.Core.Path.{subst}
use hogs.Prelude.{
  String, Bool, true, false, not, ◌&&◌, ◌||◌, Option, none, some, List, [], ◌∷◌, ◌==◌, any,
  if◌then◌else◌, ◌≡◌, refl, ap, ◌∙◌, arith, Bool-cases, inl, inr,
}
use hogs.Prelude.Fallible.{Result, ok, err}
use hogs.Access.{Grant, Decision, evaluate_server_access}
use hogs.Prelude.Text.{codes_eq}
use hogs.Membership.Identity.{
  Key, is_desired, identity_key, Driver, GameIdentity, User, Standing, Desired, authentik_identity,
  identified, looked_up, admitted, standing_of, with_standing, consed, gather,
}

-- A user's identity came from SCIM, and the driver turns it into this name and accepts that.
unfoldable pub is_verified : Driver → Result String (Option GameIdentity) → (String → Bool) → Bool
is_verified d (err e) p = false
is_verified d (ok none) p = false
is_verified d (ok (some i)) p =
    i.source == "scim"
    && not (d.identity_provider == "")
    && d.is_valid (d.resolve i.username i.external_id)
    && p (d.resolve i.username i.external_id)

unfoldable pub is_allowed : String → Result String Decision → Bool
is_allowed role (err e) = false
is_allowed role (ok decision) = role == "admin" || role == "system" || decision.allowed

-- A user who is active, is an administrator or has the capability, and has a verified identity.
unfoldable pub is_eligible :
    Driver → Result String (List Grant) → String → User → (String → Bool) → Bool
unfolding is_verified is_allowed
is_eligible d grants capability user p =
    user.is_active && is_verified d user.identity p && (elim user.groups [
      | err e ↦ false
      | ok groups ↦
          is_allowed user.role (evaluate_server_access grants user.username groups capability)
    ])

abbrev wants : Result String Standing → (String → Bool) → Bool
wants (ok (Standing.wanted name)) p = p name
wants standing p = false

looked_up_lem :
    (d : Driver) (identity : Result String (Option GameIdentity)) (p : String → Bool)
    → wants (looked_up d identity) p ≡ is_verified d identity p
unfolding looked_up identified is_verified authentik_identity
looked_up_lem d (err e) p = refl
looked_up_lem d (ok none) p = refl
looked_up_lem d (ok (some i)) p = elim (Bool-cases (i.source == "scim")) [
  | inl e ↦ elim (Bool-cases (d.identity_provider == "")) [
    | inl f ↦ rw (e, f) refl
    | inr f ↦ elim (Bool-cases (d.is_valid (d.resolve i.username i.external_id))) [
      | inl g ↦ rw (e, f, g) refl
      | inr g ↦ rw (e, f, g) refl
    ]
  ]
  | inr e ↦ rw e refl
]

wants-if :
    (a b c : Bool) (looked : Result String Standing) (p : String → Bool)
    → wants (if not a && not b && not c then ok Standing.absent else looked) p
      ≡ (wants looked p && (a || b || c))
wants-if true b c looked p = ground arith
wants-if false true c looked p = ground arith
wants-if false false true looked p = ground arith
wants-if false false false looked p = ground arith

admitted_lem :
    (d : Driver) (user : User) (decision : Result String Decision) (p : String → Bool)
    → wants (admitted d user decision) p
      ≡ (is_verified d user.identity p && is_allowed user.role decision)
unfolding admitted is_allowed
admitted_lem d user (err e) p = ground arith
admitted_lem d user (ok decision) p =
    wants-if (user.role == "admin") (user.role == "system") decision.allowed
      (looked_up d user.identity) p
    ∙ rw (looked_up_lem d user.identity p) refl

standing_cases :
    (d : Driver) (user : User) (decide : List String → Result String Decision) (active : Bool)
    (groups : Result String (List String)) (p : String → Bool)
    → wants
        (if not active
          then ok Standing.absent
          else elim groups [ err e ↦ err e | ok g ↦ admitted d user (decide g) ])
        p
      ≡ (active
          && is_verified d user.identity p
          && (elim groups [ err e ↦ false | ok g ↦ is_allowed user.role (decide g) ]))
standing_cases d user decide false groups p = refl
standing_cases d user decide true (err e) p = ground arith
standing_cases d user decide true (ok g) p = admitted_lem d user (decide g) p

standing_of_lem :
    (d : Driver) (grants : Result String (List Grant)) (capability : String) (user : User)
    (p : String → Bool)
    → wants (standing_of d grants capability user) p ≡ is_eligible d grants capability user p
unfolding standing_of is_eligible
standing_of_lem d grants capability user p =
    standing_cases d user (λ g. evaluate_server_access grants user.username g capability)
      user.is_active user.groups p

abbrev from_ok : Result String Desired → Desired
from_ok (ok desired) = desired
from_ok (err e) = []

abbrev is_ok : Result String Desired → Bool
is_ok (ok desired) = true
is_ok (err e) = false

-- The entries of the list that pass two tests, of the user and of his name in the game.
abbrev listed_by : (String → Bool) → (String → Bool) → Desired → Bool
listed_by t p desired = any (λ want. t want.0 && p want.1) desired

consed_lem :
    (user : User) (standing : Result String Standing) (rest : Result String Desired)
    (t p : String → Bool)
    → is_ok (consed user standing rest) ≡ true
    → (is_ok rest ≡ true)
      × (listed_by t p (from_ok (consed user standing rest))
          ≡ (t user.username && wants standing p || listed_by t p (from_ok rest)))
unfolding consed with_standing
consed_lem user (err e) rest t p h = absurd (cc)
consed_lem user (ok Standing.absent) rest t p h = (h, ground arith)
consed_lem user (ok Standing.missing) rest t p h = (h, ground arith)
consed_lem user (ok Standing.unverified) rest t p h = (h, ground arith)
consed_lem user (ok Standing.invalid) rest t p h = (h, ground arith)
consed_lem user (ok (Standing.wanted name)) (ok rest) t p h = (refl, refl)
consed_lem user (ok (Standing.wanted name)) (err e) t p h = absurd (cc)

gather_by :
    (d : Driver) (grants : Result String (List Grant)) (capability : String) (users : List User)
    (t p : String → Bool)
    → is_ok (gather d grants capability users) ≡ true
    → listed_by t p (from_ok (gather d grants capability users))
      ≡ any (λ user. t user.username && is_eligible d grants capability user p) users
unfolding gather
gather_by d grants capability [] t p h = refl
gather_by d grants capability (user ∷ users) t p h =
    let standing = standing_of d grants capability user in
    let rest = gather d grants capability users in
    let (fine, head) = consed_lem user standing rest t p h in
    head
    ∙ ap (λ (x : Bool). t user.username && x || listed_by t p (from_ok rest))
        (standing_of_lem d grants capability user p)
    ∙ ap (λ (x : Bool). t user.username && is_eligible d grants capability user p || x)
        (gather_by d grants capability users t p fine)

gathered :
    (d : Driver) (grants : Result String (List Grant)) (capability : String) (users : List User)
    (desired : Desired) (t p : String → Bool)
    → gather d grants capability users ≡ ok desired
    → listed_by t p desired
      ≡ any (λ user. t user.username && is_eligible d grants capability user p) users
gathered d grants capability users desired t p h =
    subst
      (λ (r : Result String Desired).
        is_ok r ≡ true
        → listed_by t p (from_ok r)
          ≡ any (λ user. t user.username && is_eligible d grants capability user p) users)
      h (gather_by d grants capability users t p) refl

-- Where nothing fails, the identities that are wanted are those of the users who are active, may join or
-- are administrators, and have a verified identity.
pub gather-is_desired :
    (d : Driver) (grants : Result String (List Grant)) (capability : String) (users : List User)
    (desired : Desired) (k : Key)
    → gather d grants capability users ≡ ok desired
    → is_desired d desired k
      ≡ any
          (λ user. is_eligible d grants capability user (λ m. codes_eq (identity_key d m) k))
          users
unfolding is_desired
gather-is_desired d grants capability users desired k h =
    gathered d grants capability users desired (λ _. true) (λ m. codes_eq (identity_key d m) k) h
