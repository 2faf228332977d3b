-- ===== src/Engine/Order.antt =====
-- The order in which the query lists the constraints, and what the loop makes of a sorted list: a
-- passing exemption shields an action from every failing constraint behind it.
use hogs.Prelude.{
  ℕ, Bool, true, false, not, ◌&&◌, ◌||◌, List, [], ◌∷◌, keep, any, all, All, ◌≡◌, refl, ap, ◌∙◌,
  arith, Bool-cases, inl, inr,
}
use hogs.Engine.Constraints.{
  Constraint, Outcome, in_scope, before, insert, sort, list_enabled_constraints_for_server, exempts,
  blocks, check_all,
}

before_irrefl : (c d : Constraint) → before c d ≡ true → before d c ≡ false
unfolding before
before_irrefl c d h = ground arith

before_trans_le :
    (c d e : Constraint) → before d c ≡ false → before e d ≡ false → before e c ≡ false
unfolding before
before_trans_le c d e h k = ground arith

-- No constraint stands before one that is listed ahead of it.
abbrev pub Sorted : List Constraint → Type 0
Sorted [] = Unit {0}
Sorted (c ∷ rest) = All (λ d. before d c ≡ false) rest × Sorted rest

All-insert :
    (P : Constraint → Type 0) (c : Constraint) (l : List Constraint)
    → P c
    → All P l
    → All P (insert c l)
unfolding insert
All-insert P c [] h k = (h, tt)
All-insert P c (d ∷ l) h k = elim (Bool-cases (before d c)) [
  | inl e ↦ rw e (k.0, All-insert P c l h k.1)
  | inr e ↦ rw e (h, k)
]

All-map :
    (P Q : Constraint → Type 0) (l : List Constraint)
    → ((d : Constraint) → P d → Q d)
    → All P l
    → All Q l
All-map P Q [] h k = tt
All-map P Q (d ∷ l) h k = (h d k.0, All-map P Q l h k.1)

insert-Sorted : (c : Constraint) (l : List Constraint) → Sorted l → Sorted (insert c l)
unfolding insert
insert-Sorted c [] s = (tt, tt)
insert-Sorted c (d ∷ l) s = elim (Bool-cases (before d c)) [
  | inl e ↦
      rw e
        (All-insert (λ x. before x d ≡ false) c l (before_irrefl d c e) s.0, insert-Sorted c l s.1)
  | inr e ↦ rw e ((e, All-map _ _ l (λ x k. before_trans_le c d x e k) s.0), s)
]

pub sort-Sorted : (l : List Constraint) → Sorted (sort l)
unfolding sort
sort-Sorted [] = tt
sort-Sorted (c ∷ l) = insert-Sorted c (sort l) (sort-Sorted l)

any-insert :
    (p : Constraint → Bool) (c : Constraint) (l : List Constraint)
    → any p (insert c l) ≡ (p c || any p l)
unfolding insert
any-insert p c [] = refl
any-insert p c (d ∷ l) = ground (arith, any-insert p c l)

all-insert :
    (p : Constraint → Bool) (c : Constraint) (l : List Constraint)
    → all p (insert c l) ≡ (p c && all p l)
unfolding insert
all-insert p c [] = refl
all-insert p c (d ∷ l) = ground (arith, all-insert p c l)

-- Of the rows of the table, some or all of those in scope.
pub any-listed :
    (p : Constraint → Bool) (id : ℕ) (table : List Constraint)
    → any p (list_enabled_constraints_for_server id table) ≡ any (λ c. in_scope id c && p c) table
unfolding list_enabled_constraints_for_server sort
any-listed p id [] = refl
any-listed p id (c ∷ table) = elim (Bool-cases (in_scope id c)) [
  | inl e ↦ rw e (
      any-insert p c (sort (keep (in_scope id) table)) ∙ ap (λ b. p c || b) (any-listed p id table))
  | inr e ↦ rw e (any-listed p id table)
]

pub all-listed :
    (p : Constraint → Bool) (id : ℕ) (table : List Constraint)
    → all p (list_enabled_constraints_for_server id table)
      ≡ all (λ c. not (in_scope id c) || p c) table
unfolding list_enabled_constraints_for_server sort
all-listed p id [] = refl
all-listed p id (c ∷ table) = elim (Bool-cases (in_scope id c)) [
  | inl e ↦ rw e (
      all-insert p c (sort (keep (in_scope id) table)) ∙ ap (λ b. p c && b) (all-listed p id table))
  | inr e ↦ rw e (all-listed p id table)
]

module _ (outcome : Constraint → Outcome) where
  -- A failing constraint before every passing exemption.
  abbrev pub unshielded : List Constraint → Constraint → Bool
  unshielded l c = blocks outcome c && all (λ d. not (exempts outcome d) || before c d) l

  -- A passing exemption before every failing constraint.
  abbrev pub shields : List Constraint → Constraint → Bool
  shields l d = exempts outcome d && all (λ c. not (blocks outcome c) || before d c) l

  -- Behind the head of a sorted list nothing can stand before it.
  unshielded_behind :
      (h : Constraint) (rest l : List Constraint)
      → exempts outcome h ≡ true
      → All (λ d. before d h ≡ false) l
      → any (unshielded (h ∷ rest)) l ≡ false
  unshielded_behind h rest [] e s = refl
  unshielded_behind h rest (c ∷ l) e s = ground (arith, unshielded_behind h rest l, s.0)

  shields_behind :
      (h : Constraint) (rest l : List Constraint)
      → blocks outcome h ≡ true
      → All (λ d. before d h ≡ false) l
      → any (shields (h ∷ rest)) l ≡ false
  shields_behind h rest [] e s = refl
  shields_behind h rest (c ∷ l) e s = ground (arith, shields_behind h rest l, s.0)

  unshielded_rest :
      (h : Constraint) (rest l : List Constraint)
      → any (unshielded (h ∷ rest)) l ≡ true
      → any (unshielded rest) l ≡ true
  unshielded_rest h rest [] e = e
  unshielded_rest h rest (c ∷ l) e = ground (arith, unshielded_rest h rest l)

  shields_rest :
      (h : Constraint) (rest l : List Constraint)
      → any (shields (h ∷ rest)) l ≡ true
      → any (shields rest) l ≡ true
  shields_rest h rest [] e = e
  shields_rest h rest (c ∷ l) e = ground (arith, shields_rest h rest l)

  pub check_all-unshielded :
      (l : List Constraint)
      → Sorted l
      → any (unshielded l) l ≡ true
      → (check_all outcome l).allowed ≡ false
  unfolding check_all
  check_all-unshielded [] s h = cc
  check_all-unshielded (c ∷ l) s h = elim (Bool-cases (exempts outcome c)) [
    | inl e ↦ ground (arith, unshielded_behind c l l e s.0)
    | inr e ↦ ground (arith, unshielded_rest c l l, check_all-unshielded l s.1)
  ]

  pub check_all-shields :
      (l : List Constraint)
      → Sorted l
      → any (shields l) l ≡ true
      → (check_all outcome l).allowed ≡ true
  unfolding check_all
  check_all-shields [] s h = cc
  check_all-shields (c ∷ l) s h = elim (Bool-cases (blocks outcome c)) [
    | inl e ↦ ground (arith, shields_behind c l l e s.0)
    | inr e ↦ ground (arith, shields_rest c l l, check_all-shields l s.1)
  ]
