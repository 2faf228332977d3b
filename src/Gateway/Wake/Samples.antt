-- ===== src/Gateway/Wake/Samples.antt =====
-- The boot durations that the gateway keeps, and the estimate that it takes from them.
use hogs.Prelude.{
  ℕ, suc, ◌+◌, ◌-◌, ◌*◌, ◌/◌, ◌≤◌, ◌<◌, some, List, [], ◌∷◌, eqb, length, ◌≡◌, refl, ap, ◌∙◌, arith,
  Bool-cases, inl, inr,
}
use hogs.Gateway.Wake.{
  Settings, Gateway, drop, trim, insert_sorted, sort, get_elem?, estimated_boot_locked,
}

length-drop : (n : ℕ) (xs : List ℕ) → length (drop n xs) ≡ length xs - n
unfolding drop
length-drop n [] = omega arith
length-drop n (x ∷ xs) = ground (arith, length-drop (n - 1) xs)

pub length-trim : (xs : List ℕ) → length (trim xs) ≤ 20
unfolding trim
length-trim xs = ground (arith, length-drop (length xs - 20) xs)

length-insert_sorted : (x : ℕ) (ys : List ℕ) → length (insert_sorted x ys) ≡ suc (length ys)
unfolding insert_sorted
length-insert_sorted x [] = refl
length-insert_sorted x (y ∷ ys) = ground (arith, length-insert_sorted x ys)

length-sort : (xs : List ℕ) → length (sort xs) ≡ length xs
unfolding sort
length-sort [] = refl
length-sort (x ∷ xs) = length-insert_sorted x (sort xs) ∙ ap suc (length-sort xs)

get_elem?-some : (xs : List ℕ) (n : ℕ) → n < length xs → (x : ℕ) × (get_elem? xs n ≡ some x)
unfolding get_elem?
get_elem?-some [] n h = absurd (omega arith)
get_elem?-some (x ∷ xs) n h = elim (Bool-cases (eqb n 0)) [
  | inl e ↦ (x, rw e refl)
  | inr e ↦ let (y, k) = get_elem?-some xs (n - 1) (ground arith) in (y, rw e k)
]

-- The estimate of the boot duration is always there: the index into the sorted durations is in
-- range, however many there are.
pub estimated_boot_locked-total :
    (s : Settings) (g : Gateway) → (d : ℕ) × (estimated_boot_locked s g ≡ some d)
unfolding estimated_boot_locked
estimated_boot_locked-total s g = elim (Bool-cases (eqb (length g.boot_durations) 0)) [
  | inl e ↦ (s.default_boot, rw e refl)
  | inr e ↦
      let k : (3 * length g.boot_durations + 3) / 4 - 1 < length (sort g.boot_durations) =
        ground (arith, length-sort g.boot_durations) in
      let (d, h) = get_elem?-some (sort g.boot_durations) _ k in (d, rw e h)
]
