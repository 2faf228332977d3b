-- ===== src/Membership/Whitelist/Rules.antt =====
-- What one round of each loop of the reconciler leaves, where it goes on: the statements. Steps has the
-- requests and writes, Rounds the rounds.
pub mod Steps
pub mod Rounds
use hogs.Prelude.{
  contradicts, All, any, String, Bool, true, false, not, ◌&&◌, ◌||◌, Option, none, some, List, [],
  ◌∷◌, ◌==◌, if◌then◌else◌, ◌≡◌, refl, sym, ap, ◌∙◌, arith, Bool-cases, inl, inr,
}
use hogs.Prelude.Text.{codes_eq, codes_eq→eq}
use hogs.Membership.Identity.{
  Key, Driver, Desired, Row, identity_key, identities_equal, is_desired, desired_owner, find_row,
  without_user, set_for_identity,
}
use hogs.Membership.Whitelist.{
  Services, Command, Write, Sync, Part, goes_on, ◌>>=◌, send_add, send_remove, store_set,
  store_delete, add_missing, remove_present, drop_former, settle, admit, revoke, hand_over,
}

-- What holds of a part that goes on.
abbrev pub After : (Sync → Type 0) → Part → Type 0
After P (w, true) = P w
After P (w, false) = Unit

pub After-bind :
    (P Q : Sync → Type 0) (m : Part) (f : Sync → Part)
    → After P m
    → ((w : Sync) → P w → After Q (f w))
    → After Q (m >>= f)
After-bind P Q (w, true) f h k = k w h
After-bind P Q (w, false) f h k = tt

pub After-weaken :
    (P Q : Sync → Type 0) (m : Part) → After P m → ((w : Sync) → P w → Q w) → After Q m
After-weaken P Q (w, true) h k = k w h
After-weaken P Q (w, false) h k = tt

pub After-holds : (P : Sync → Type 0) (m : Part) → After P m → m.1 ≡ true → P m.0
After-holds P (w, true) h e = h
After-holds P (w, false) h e = absurd (cc)

abbrev pub key_eq : Key → Key → Bool
key_eq = codes_eq

-- What a test finds in a list holds of its members, where it finds each of them.
pub All-any :
    {A : Type 0} (test : A → A → Bool) (q : A → Bool) (xs : List A)
    → ((x : A) → test x x ≡ true)
    → ((x : A) → any (λ y. test y x) xs ≡ true → q x ≡ true)
    → All (λ x. q x ≡ true) xs
All-any test q [] self h = tt
All-any test q (x ∷ xs) self h =
    (h x (rw (self x) refl), All-any test q xs self (λ y e. h y (ground (arith, e))))

pub same_key :
    (d : Driver) (a b : String)
    → identities_equal d a b ≡ true
    → identity_key d a ≡ identity_key d b
unfolding identities_equal
same_key d a b e = codes_eq→eq _ _ e

-- A set with a key more, or less, that was there, or not, already.
with_present : (k j : Key) (s : Key → Bool) → s k ≡ true → s j ≡ (key_eq k j || s j)
with_present k j s h = elim (Bool-cases (key_eq k j)) [
  | inl e ↦ rw e (ap s (sym (codes_eq→eq k j e)) ∙ h)
  | inr e ↦ rw e refl
]

without_absent : (k j : Key) (s : Key → Bool) → s k ≡ false → s j ≡ (not (key_eq k j) && s j)
without_absent k j s h = elim (Bool-cases (key_eq k j)) [
  | inl e ↦ rw e (ap s (sym (codes_eq→eq k j e)) ∙ h)
  | inr e ↦ rw e refl
]

-- A run's state by its parts, the entries on the server by their keys.
pub record Becomes (actual : Key → Bool) (rows owned : List Row) (v : Sync) : Type 0 where
  pub entries : (k : Key) → v.actual k ≡ actual k
  pub rows_are : v.rows ≡ rows
  pub owned_are : v.owned ≡ owned

module _ (d : Driver) (desired : Desired) where
  -- The key that leaves the server with a user's former identity.
  unfoldable pub dropped : Option Row → Key → Bool
  dropped none k = false
  dropped (some r) k =
      not (is_desired d desired (identity_key d r.name)) && key_eq (identity_key d r.name) k

  unfoldable pub settled : Option Row → Bool → String → String → List Row → List Row
  settled none was_there user name rows =
      if was_there then rows else set_for_identity d user name rows
  settled (some r) was_there user name rows =
      if identities_equal d r.name name || not was_there
      then set_for_identity d user name rows
      else without_user user rows

  -- The rows that a revocation leaves: the identity may pass to another user who wants it.
  unfoldable pub passed_on : Option String → Row → List Row → List Row
  passed_on none stale rows = rows
  passed_on (some recipient) stale rows =
      if recipient == stale.user then rows else set_for_identity d recipient stale.name rows

  unfoldable pub revoked_rows : Row → List Row → List Row
  unfolding passed_on
  revoked_rows stale rows =
      let k = identity_key d stale.name in
      without_user stale.user
        (if is_desired d desired k then passed_on (desired_owner d desired k) stale rows else rows)
