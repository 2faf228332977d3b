-- ===== src/Membership/Whitelist/Ownership/Table.antt =====
-- The rows of the store that a run has settled, after each of its writes.
use mathlib.Core.Path.{subst}
use hogs.Prelude.{
  contradicts, String, Bool, true, false, not, ◌&&◌, ◌||◌, Option, none, some, List, [], ◌∷◌, ◌==◌,
  keep, All, any, eq_iff, eq_refl, ◌≡◌, refl, sym, ap, ◌∙◌, arith, Bool-cases, inl, inr,
}
use hogs.Membership.Identity.{
  Key, Driver, Desired, Row, identity_key, identities_equal, is_desired, desired_owner, find_row,
  without_user, owns, set_for_identity,
}
use hogs.Membership.Whitelist.Rules.{same_key, settled, passed_on, revoked_rows}
use hogs.Membership.Whitelist.Entries.{without_user_absent}

-- Has a user a row?
abbrev pub has_row : String → List Row → Bool
has_row u rows = any (λ r. r.user == u) rows

eq_swap : (a b : String) → (a == b) ≡ false → (b == a) ≡ false
eq_swap a b e = elim (Bool-cases (b == a)) [
  | inl f ↦
      absurd
        (contradicts (sym (ap (λ (x : String). x == b) (sym ((eq_iff b a).0 f)) ∙ eq_refl b) ∙ e))
  | inr f ↦ f
]

has_row-find_row : (u : String) (rows : List Row) → find_row u rows ≡ none → has_row u rows ≡ false
unfolding find_row
has_row-find_row u [] h = refl
has_row-find_row u (r ∷ rows) h = ground (arith, has_row-find_row u rows)

has_row-without_user :
    (u v : String) (rows : List Row)
    → (u == v) ≡ false
    → has_row u rows ≡ true
    → has_row u (without_user v rows) ≡ true
unfolding without_user
has_row-without_user u v [] e h = h
has_row-without_user u v (r ∷ rows) e h = elim (Bool-cases (r.user == v)) [
  | inl f ↦ elim (Bool-cases (r.user == u)) [
    | inl g ↦
        let same : (u == v) ≡ true =
          subst (λ (x : String). (x == v) ≡ true) ((eq_iff r.user u).0 g) f in
        absurd (contradicts (sym same ∙ e))
    | inr g ↦ rw f (has_row-without_user u v rows e (ground (arith, g, h)))
  ]
  | inr f ↦ rw f (ground (arith, has_row-without_user u v rows e))
]

module _ (d : Driver) (desired : Desired) (before : Key → Bool) (at_start : List Row) where
  -- An identity that HOGS may call its own: it is wanted, and HOGS owned it or it was not there.
  abbrev pub may_own : Key → Bool
  may_own k = is_desired d desired k && (owns d k at_start || not (before k))

  -- The rows that are settled, or whose users the run has still to look at.
  abbrev pub Settled : List Row → List Row → Type 0
  Settled owned rows =
      All (λ r. (may_own (identity_key d r.name) || has_row r.user owned) ≡ true) rows

  -- The rows of the map are rows of the table at the start.
  abbrev pub Known : List Row → Type 0
  Known owned = All (λ r. owns d (identity_key d r.name) at_start ≡ true) owned

  pub Known-without_user :
      (u : String) (owned : List Row) → Known owned → Known (without_user u owned)
  unfolding without_user
  Known-without_user u [] h = tt
  Known-without_user u (r ∷ owned) (a, h) = elim (Bool-cases (r.user == u)) [
    | inl e ↦ rw e (Known-without_user u owned h)
    | inr e ↦ rw e (a, Known-without_user u owned h)
  ]

  abbrev is_known : Option Row → Bool
  is_known none = true
  is_known (some r) = owns d (identity_key d r.name) at_start

  pub Known-find_row :
      (u : String) (owned : List Row) → Known owned → is_known (find_row u owned) ≡ true
  unfolding find_row
  Known-find_row u [] h = refl
  Known-find_row u (q ∷ owned) (a, h) = elim (Bool-cases (q.user == u)) [
    | inl f ↦ rw f a
    | inr f ↦ rw f (Known-find_row u owned h)
  ]

  Settled-without_user :
      (u : String) (owned rows : List Row)
      → Settled owned rows
      → Settled (without_user u owned) (without_user u rows)
  unfolding without_user
  Settled-without_user u owned [] h = tt
  Settled-without_user u owned (r ∷ rows) (a, h) = elim (Bool-cases (r.user == u)) [
    | inl e ↦ rw e (Settled-without_user u owned rows h)
    | inr e ↦
        let kept = has_row-without_user r.user u owned e in
        rw e (ground (arith, a, kept), Settled-without_user u owned rows h)
  ]

  Settled-keep :
      (p : Row → Bool) (owned rows : List Row) → Settled owned rows → Settled owned (keep p rows)
  Settled-keep p owned [] h = tt
  Settled-keep p owned (r ∷ rows) (a, h) = elim (Bool-cases (p r)) [
    | inl e ↦ rw e (a, Settled-keep p owned rows h)
    | inr e ↦ rw e (Settled-keep p owned rows h)
  ]

  -- A row for a user who is not looked at any more, in place of the rows of the identity.
  Settled-set_for_identity :
      (u name : String) (owned rows : List Row)
      → may_own (identity_key d name) ≡ true
      → Settled owned rows
      → Settled (without_user u owned) (set_for_identity d u name rows)
  unfolding set_for_identity
  Settled-set_for_identity u name owned rows a h =
      (ground (arith, a), Settled-without_user u owned _ (Settled-keep _ owned rows h))

  pub Settled-settled :
      (former : Option Row) (was_there : Bool) (u name : String) (owned rows : List Row)
      → find_row u owned ≡ former
      → is_known former ≡ true
      → is_desired d desired (identity_key d name) ≡ true
      → (was_there || not (before (identity_key d name))) ≡ true
      → Settled owned rows
      → Settled (without_user u owned) (settled d desired former was_there u name rows)
  unfolding settled
  Settled-settled none true u name owned rows f k h b s =
      subst (λ (o : List Row). Settled o rows) (sym (without_user_absent u owned f)) s
  Settled-settled none false u name owned rows f k h b s =
      Settled-set_for_identity u name owned rows (ground (arith, h, b)) s
  Settled-settled (some r) was_there u name owned rows f k h b s =
      elim (Bool-cases (identities_equal d r.name name)) [
        | inl e ↦
            let same : owns d (identity_key d name) at_start ≡ true =
              ap (λ (x : Key). owns d x at_start) (sym (same_key d r.name name e)) ∙ k in
            rw e (Settled-set_for_identity u name owned rows (ground (arith, h, same)) s)
        | inr e ↦ elim (Bool-cases was_there) [
          | inl t ↦ rw (e, t) (Settled-without_user u owned rows s)
          | inr t ↦
              rw (e, t) (Settled-set_for_identity u name owned rows (ground (arith, h, b, t)) s)
        ]
      ]

  pub Settled-done :
      (rows : List Row) → Settled [] rows → All (λ r. may_own (identity_key d r.name) ≡ true) rows
  Settled-done [] h = tt
  Settled-done (r ∷ rows) (a, h) = (ground (arith, a), Settled-done rows h)

  Settled-shorter :
      (r : Row) (stale rows : List Row)
      → Settled (r ∷ stale) rows
      → Settled stale (without_user r.user rows)
  unfolding without_user
  Settled-shorter r stale [] h = tt
  Settled-shorter r stale (q ∷ rows) (a, h) = elim (Bool-cases (q.user == r.user)) [
    | inl e ↦ rw e (Settled-shorter r stale rows h)
    | inr e ↦
        let other = eq_swap q.user r.user e in
        rw e (ground (arith, a, other), Settled-shorter r stale rows h)
  ]

  Settled-passed_on :
      (to : Option String) (r : Row) (stale rows : List Row)
      → may_own (identity_key d r.name) ≡ true
      → Settled stale rows
      → Settled stale (passed_on d desired to r rows)
  unfolding passed_on set_for_identity
  Settled-passed_on none r stale rows m s = s
  Settled-passed_on (some u) r stale rows m s = elim (Bool-cases (u == r.user)) [
    | inl e ↦ rw e s
    | inr e ↦ rw e (ground (arith, m), Settled-keep _ stale _ (Settled-keep _ stale rows s))
  ]

  pub Settled-revoked :
      (r : Row) (stale rows : List Row)
      → owns d (identity_key d r.name) at_start ≡ true
      → Settled (r ∷ stale) rows
      → Settled stale (revoked_rows d desired r rows)
  unfolding revoked_rows
  Settled-revoked r stale rows a s =
      elim (Bool-cases (is_desired d desired (identity_key d r.name))) [
        | inl e ↦ rw e (
            Settled-shorter r stale _ (
              Settled-passed_on (desired_owner d desired (identity_key d r.name)) r (r ∷ stale) rows
                (ground (arith, e, a)) s))
        | inr e ↦ rw e (Settled-shorter r stale rows s)
      ]
