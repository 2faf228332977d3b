-- ===== src/Membership/File/Edits/Identities.antt =====
-- The identities in a list of entries after the removal of one and after the replacement of an entry.
use mathlib.Core.Path.{ap₂}
use hogs.Prelude.{
  keep, contradicts, String, Bool, true, false, not, ◌&&◌, List, [], ◌∷◌, eq_iff, if◌then◌else◌,
  ◌≡◌, refl, sym, ap, ◌∙◌, arith, Bool-cases, inl, inr,
}
use hogs.Prelude.Text.{codes_eq, codes_eq→eq, codes_eq_refl}
use hogs.Membership.Identity.{Driver, Key, identity_key, identities_equal}
use hogs.Membership.File.{Entry, without, has, put, is_place, same_entry}

-- Names of one identity are equal to the same names.
pub same_identity :
    (d : Driver) (a b j : String)
    → identities_equal d a b ≡ true
    → identities_equal d a j ≡ identities_equal d b j
unfolding identities_equal
same_identity d a b j e =
    ap (λ (k : Key). codes_eq k (identity_key d j)) (codes_eq→eq (identity_key d a) _ e)

pub distinct :
    (d : Driver) (a b j : String)
    → identities_equal d a b ≡ false
    → (identities_equal d a j && identities_equal d b j) ≡ false
unfolding identities_equal
distinct d a b j h = elim (Bool-cases (identities_equal d b j)) [
  | inl e ↦ let same = codes_eq→eq (identity_key d b) (identity_key d j) e in rw (sym same, h) refl
  | inr e ↦ rw e (ground arith)
]

pub identical : (d : Driver) (a : String) → identities_equal d a a ≡ true
unfolding identities_equal
identical d a = codes_eq_refl (identity_key d a)

pub has-without :
    (d : Driver) (j name : String) (entries : List Entry)
    → has d j (without d name entries) ≡ (has d j entries && not (identities_equal d name j))
unfolding has without
has-without d j name [] = refl
has-without d j name (e ∷ entries) = elim (Bool-cases (identities_equal d e.name name)) [
  | inl h ↦
      let same = same_identity d e.name name j h in
      let ih = has-without d j name entries in rw (h, same) (ground (arith, ih))
  | inr h ↦
      let apart = distinct d e.name name j h in
      let ih = has-without d j name entries in rw h (ground (arith, ih, apart))
]

-- The entry of a change is there after it.
pub has-put :
    (d : Driver) (username : String) (entry : Entry) (entries : List Entry)
    → identities_equal d entry.name username ≡ true
    → has d username (put d username entry entries).0 ≡ true
unfolding has put
has-put d username entry [] h = ground (arith, h)
has-put d username entry (e ∷ entries) h = elim (Bool-cases (is_place d username entry e)) [
  | inl p ↦ rw p (ground (arith, h))
  | inr p ↦ let ih = has-put d username entry entries h in rw p (ground (arith, ih))
]

-- No other identity comes in.
pub has-put_other :
    (d : Driver) (username j : String) (entry : Entry) (entries : List Entry)
    → identities_equal d entry.name j ≡ false
    → has d j entries ≡ false
    → has d j (put d username entry entries).0 ≡ false
unfolding has put
has-put_other d username j entry [] h n = ground (arith, h)
has-put_other d username j entry (e ∷ entries) h n =
    elim (Bool-cases (is_place d username entry e)) [
      | inl p ↦ rw p (ground (arith, h, n))
      | inr p ↦
          let ih = has-put_other d username j entry entries h (ground (arith, n)) in
          rw p (ground (arith, ih, n))
    ]

-- The entries that are not the one to replace.
abbrev pub others : Driver → String → Entry → List Entry → List Entry
others d username entry entries = keep (λ e. not (is_place d username entry e)) entries

has-others :
    (d : Driver) (username j : String) (entry : Entry) (entries : List Entry)
    → has d j (others d username entry entries) ≡ true
    → has d j entries ≡ true
unfolding has
has-others d username j entry [] h = h
has-others d username j entry (e ∷ entries) h =
    let ih = has-others d username j entry entries in
    elim (Bool-cases (is_place d username entry e)) [
      | inl p ↦ let k = ih (rw p at h) in rw k (ground arith)
      | inr p ↦ ground (arith, p, h, ih)
    ]

-- They stay.
pub has-put-others :
    (d : Driver) (username j : String) (entry : Entry) (entries : List Entry)
    → has d j (others d username entry entries) ≡ true
    → has d j (put d username entry entries).0 ≡ true
unfolding has put
has-put-others d username j entry [] h = absurd (contradicts (sym h))
has-put-others d username j entry (e ∷ entries) h =
    elim (Bool-cases (is_place d username entry e)) [
      | inl p ↦
          let k = has-others d username j entry entries (rw p at h) in rw p (ground (arith, k))
      | inr p ↦
          let ih = has-put-others d username j entry entries in rw p (ground (arith, p, h, ih))
    ]

keep_comm :
    (p q : Entry → Bool) (entries : List Entry) → keep p (keep q entries) ≡ keep q (keep p entries)
keep_comm p q [] = refl
keep_comm p q (e ∷ entries) = ground (arith, keep_comm p q entries)

pub has-others-without :
    (d : Driver) (username name j : String) (entry : Entry) (entries : List Entry)
    → has d j (others d username entry entries) ≡ true
    → identities_equal d name j ≡ false
    → has d j (others d username entry (without d name entries)) ≡ true
unfolding without
has-others-without d username name j entry entries h a =
    ap (has d j) (keep_comm (λ e. not (is_place d username entry e)) _ entries)
    ∙ has-without d j name (others d username entry entries)
    ∙ rw (h, a) refl

pub without_absent :
    (d : Driver) (name : String) (entries : List Entry)
    → has d name entries ≡ false
    → without d name entries ≡ entries
unfolding has without
without_absent d name [] h = refl
without_absent d name (e ∷ entries) h = ground (arith, without_absent d name entries)

same_entry_lem : (a b : Entry) → same_entry a b ≡ true → a ≡ b
unfolding same_entry
same_entry_lem a b h =
    let u = (eq_iff a.uuid b.uuid).0 (ground (arith, h)) in
    let n = (eq_iff a.name b.name).0 (ground (arith, h)) in
    ap₂ (λ (x y : String). record { uuid = x; name = y }) u n

-- One round of the loop.
abbrev placed : Bool → Entry → Entry → List Entry → List Entry × Bool → List Entry × Bool
placed place e entry entries rest =
    if place then (entry ∷ entries, not (same_entry e entry)) else (e ∷ rest.0, rest.1)

placed_unchanged :
    (place : Bool) (e entry : Entry) (entries : List Entry) (rest : List Entry × Bool)
    → (rest.1 ≡ false → rest.0 ≡ entries)
    → (placed place e entry entries rest).1 ≡ false
    → (placed place e entry entries rest).0 ≡ (e ∷ entries)
placed_unchanged true e entry entries rest ih h =
    ap (λ (x : Entry). x ∷ entries) (sym (same_entry_lem e entry (ground (arith, h))))
placed_unchanged false e entry entries rest ih h = ap (λ (x : List Entry). e ∷ x) (ih h)

pub put_unchanged :
    (d : Driver) (username : String) (entry : Entry) (entries : List Entry)
    → (put d username entry entries).1 ≡ false
    → (put d username entry entries).0 ≡ entries
unfolding put
put_unchanged d username entry [] h = absurd (cc)
put_unchanged d username entry (e ∷ entries) h =
    let place = is_place d username entry e in
    let rest = put d username entry entries in
    placed_unchanged place e entry entries rest (put_unchanged d username entry entries) h
