-- ===== src/Outbox/Order.antt =====
-- The rows of a stream: numbered without gaps in the order of their queueing, with distinct ids.
use hogs.Prelude.{
  ℕ, suc, ◌+◌, Bool, true, false, not, ◌||◌, List, [], ◌∷◌, ◌++◌, map, leb, eqb, any, keep, length,
  length-append, ◌≡◌, refl, sym, ap, ◌∙◌, arith,
}
use hogs.Outbox.{Queued, Producer, insert_by_seq, by_seq, enqueue, renumbered, renumber}

module _ {Body : Type 0} where
  unfoldable pub IsNumbered : ℕ → List (Queued Body) → Type 0
  IsNumbered n [] = Unit
  IsNumbered n (x ∷ xs) = (x.seq ≡ n) × IsNumbered (suc n) xs

  abbrev pub has_id : ℕ → List (Queued Body) → Bool
  has_id id xs = any (λ x. eqb x.id id) xs

  unfoldable pub IsDistinct : List (Queued Body) → Type 0
  IsDistinct [] = Unit
  IsDistinct (x ∷ xs) = (has_id x.id xs ≡ false) × IsDistinct xs

  -- An outbox whose rows have the sequences up to the next one, and an id each.
  pub record IsSound (p : Producer Body) : Type 0 where
    pub first : ℕ
    pub numbered : IsNumbered first p.queue
    pub upto_next : first + length p.queue ≡ p.next_seq
    pub distinct : IsDistinct p.queue

  insert_by_seq-first :
      (x y : Queued Body) (ys : List (Queued Body))
      → leb x.seq y.seq ≡ true
      → insert_by_seq x (y ∷ ys) ≡ x ∷ y ∷ ys
  unfolding insert_by_seq
  insert_by_seq-first x y ys h = rw h refl

  pub by_seq-IsNumbered : (n : ℕ) (xs : List (Queued Body)) → IsNumbered n xs → by_seq xs ≡ xs
  unfolding by_seq IsNumbered
  by_seq-IsNumbered n [] h = refl
  by_seq-IsNumbered n (x ∷ []) h = refl
  by_seq-IsNumbered n (x ∷ y ∷ ys) (e, k) =
      let r = by_seq-IsNumbered (suc n) (y ∷ ys) k in
      let low : leb x.seq y.seq ≡ true = ground (arith, e, k.0) in
      ap (insert_by_seq x) r ∙ insert_by_seq-first x y ys low

  IsNumbered-append :
      (n : ℕ) (xs : List (Queued Body)) (y : Queued Body)
      → IsNumbered n xs
      → y.seq ≡ n + length xs
      → IsNumbered n (xs ++ y ∷ [])
  unfolding IsNumbered
  IsNumbered-append n [] y h e = (omega (arith, e), tt)
  IsNumbered-append n (x ∷ xs) y (e', h) e =
      (e', IsNumbered-append (suc n) xs y h (omega (arith, e)))

  has_id-append :
      (i : ℕ) (xs : List (Queued Body)) (y : Queued Body)
      → has_id i (xs ++ y ∷ []) ≡ (has_id i xs || eqb y.id i)
  has_id-append i [] y = ground arith
  has_id-append i (x ∷ xs) y = ground (arith, has_id-append i xs y)

  IsDistinct-append :
      (xs : List (Queued Body)) (y : Queued Body)
      → IsDistinct xs
      → has_id y.id xs ≡ false
      → IsDistinct (xs ++ y ∷ [])
  unfolding IsDistinct
  IsDistinct-append [] y h e = (refl, tt)
  IsDistinct-append (x ∷ xs) y (a, h) e =
      (ground (arith, has_id-append x.id xs y), IsDistinct-append xs y h (ground (arith, e)))

  pub renumbered-IsNumbered : (n : ℕ) (xs : List (Queued Body)) → IsNumbered n (renumbered n xs)
  unfolding renumbered IsNumbered
  renumbered-IsNumbered n [] = tt
  renumbered-IsNumbered n (x ∷ xs) = (refl, renumbered-IsNumbered (suc n) xs)

  length-renumbered : (n : ℕ) (xs : List (Queued Body)) → length (renumbered n xs) ≡ length xs
  unfolding renumbered
  length-renumbered n [] = refl
  length-renumbered n (x ∷ xs) = ap suc (length-renumbered (suc n) xs)

  has_id-renumbered : (i n : ℕ) (xs : List (Queued Body)) → has_id i (renumbered n xs) ≡ has_id i xs
  unfolding renumbered
  has_id-renumbered i n [] = refl
  has_id-renumbered i n (x ∷ xs) =
      ap (λ (b : Bool). eqb x.id i || b) (has_id-renumbered i (suc n) xs)

  renumbered-IsDistinct :
      (n : ℕ) (xs : List (Queued Body)) → IsDistinct xs → IsDistinct (renumbered n xs)
  unfolding renumbered IsDistinct
  renumbered-IsDistinct n [] h = tt
  renumbered-IsDistinct n (x ∷ xs) (a, h) =
      (has_id-renumbered x.id (suc n) xs ∙ a, renumbered-IsDistinct (suc n) xs h)

  -- The rows of other ids stay.
  keep-has_id :
      (i : ℕ) (xs : List (Queued Body))
      → has_id i xs ≡ false
      → keep (λ (x : Queued Body). not (eqb x.id i)) xs ≡ xs
  keep-has_id i [] h = refl
  keep-has_id i (x ∷ xs) h =
      let a : eqb x.id i ≡ false = ground (arith, h) in
      let b : has_id i xs ≡ false = ground (arith, h) in
      rw a (ap (λ (l : List (Queued Body)). x ∷ l) (keep-has_id i xs b))

  -- Deleting the row of the first sequence leaves the others as they are.
  pub keep_rest :
      (x : Queued Body) (xs : List (Queued Body))
      → has_id x.id xs ≡ false
      → keep (λ (y : Queued Body). not (eqb y.id x.id)) (x ∷ xs) ≡ xs
  keep_rest x xs h = let a : eqb x.id x.id ≡ true = ground arith in rw a (keep-has_id x.id xs h)

  pub enqueue-IsSound :
      (id : ℕ) (body : Body) (p : Producer Body)
      → has_id id p.queue ≡ false
      → IsSound p
      → IsSound (enqueue id body p)
  unfolding enqueue
  enqueue-IsSound id body p h i =
      let row : Queued Body = record { id = id; seq = p.next_seq; body = body } in
      record {
        first = i.first;
        numbered = IsNumbered-append i.first p.queue row i.numbered (sym i.upto_next);
        upto_next = omega (arith, i.upto_next, length-append p.queue (row ∷ []));
        distinct = IsDistinct-append p.queue row i.distinct h;
      }

  pub renumber-IsSound : (now : ℕ) (p : Producer Body) → IsSound p → IsSound (renumber now p)
  unfolding renumber
  renumber-IsSound now p i =
      let e = by_seq-IsNumbered i.first p.queue i.numbered in
      rw e (record {
        first = 0;
        numbered = renumbered-IsNumbered 0 p.queue;
        upto_next = omega (arith, length-renumbered 0 p.queue);
        distinct = renumbered-IsDistinct 0 p.queue i.distinct;
      })

  -- The bodies that wait, in the order of the rows.
  abbrev pub bodies : List (Queued Body) → List Body
  bodies xs = map (λ x. x.body) xs
