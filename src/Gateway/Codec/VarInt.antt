-- ===== src/Gateway/Codec/VarInt.antt =====
-- Variable-length integers: what `appendMinecraftVarInt` writes, `readMinecraftVarInt` reads.
use native.Mathlib.Nat.{pow-suc}
use native.Mathlib.Numerals.{towards_suc}
use mathlib.Core.List.{append_assoc}
use hogs.Prelude.{
  ℕ, zero, suc, ◌+◌, ◌*◌, ◌/◌, ◌%◌, ◌^◌, ◌≤◌, ◌<◌, true, false, [], ◌∷◌, ◌++◌, ltb, eqb, ◌≡◌, refl,
  ap, ◌∙◌, arith, Bool-cases, inl, inr, lt→ltb, eqb_iff,
}
use hogs.Prelude.Fallible.{ok}
use hogs.Gateway.Codec.{Bytes, read_groups, read_var_int, groups, append_var_int}

next_weight : (position : ℕ) → 2 ^ (7 * (position + 1)) ≡ 128 * 2 ^ (7 * position)
next_weight position =
    let e : 7 * (position + 1) ≡ 7 * position + 7 = omega arith in
    rw e (simp towards_suc (omega arith))

next_value : (acc v w : ℕ) → acc + v % 128 * w + v / 128 * (128 * w) ≡ acc + v * w
next_value acc v w =
    let e : v ≡ v % 128 + v / 128 * 128 = omega arith in omega (arith, ap (λ (t : ℕ). t * w) e)

next_bound : (n v : ℕ) → v < 128 ^ suc (suc n) → v / 128 < 128 ^ suc n
next_bound n v h =
    let e : 128 ^ suc (suc n) ≡ 128 ^ suc n * 128 = pow-suc 128 (suc n) in omega (arith, h, e)

last_group : (v : ℕ) → eqb (v / 128) 0 ≡ true → v % 128 % 128 ≡ v
last_group v h = let e : v / 128 ≡ 0 = (eqb_iff (v / 128) 0).0 h in omega (arith, e)

more_group : (v : ℕ) → (v % 128 + 128) % 128 ≡ v % 128
more_group v = omega arith

module _ (f v position acc : ℕ) (prefix rest : Bytes) where
  -- The first group of a number of more groups than one, and the round that is left to read.
  read_groups-more :
      (n : ℕ)
      → eqb (v / 128) 0 ≡ false
      → read_groups (suc n) position acc prefix (groups (suc f) v ++ rest)
        ≡ read_groups n
            (position + 1)
            (acc + v % 128 * 2 ^ (7 * position))
            (prefix ++ (v % 128 + 128) ∷ [])
            (groups f (v / 128) ++ rest)
  unfolding read_groups groups
  read_groups-more n h =
      let e : ltb (v % 128 + 128) 128 ≡ false = ground arith in rw (h, e, more_group v) refl

  read_groups-last :
      (n : ℕ)
      → eqb (v / 128) 0 ≡ true
      → read_groups (suc n) position acc prefix (groups (suc f) v ++ rest)
        ≡ ok (acc + v * 2 ^ (7 * position), prefix ++ groups (suc f) v, rest)
  unfolding read_groups groups
  read_groups-last n h =
      let e : ltb (v % 128) 128 ≡ true = lt→ltb (v % 128) 128 (omega arith) in
      rw (h, e, last_group v h) refl

  groups-more : eqb (v / 128) 0 ≡ false → groups (suc f) v ≡ (v % 128 + 128) ∷ groups f (v / 128)
  unfolding groups
  groups-more h = rw h refl

-- A number of at most `n + 1` groups is read from its own bytes in `n + 1` rounds.
pub read_groups-groups :
    (n f v position acc : ℕ) (prefix rest : Bytes)
    → v < 128 ^ suc n
    → n ≤ f
    → read_groups (suc n) position acc prefix (groups (suc f) v ++ rest)
      ≡ ok (acc + v * 2 ^ (7 * position), prefix ++ groups (suc f) v, rest)
read_groups-groups zero f v position acc prefix rest h k =
    read_groups-last f v position acc prefix rest zero ((eqb_iff (v / 128) 0).1 (omega arith))
read_groups-groups (suc n) zero v position acc prefix rest h k = absurd (omega arith)
read_groups-groups (suc n) (suc f) v position acc prefix rest h k =
    elim (Bool-cases (eqb (v / 128) 0)) [
      | inl last ↦ read_groups-last (suc f) v position acc prefix rest (suc n) last
      | inr more ↦
          let e = read_groups-more (suc f) v position acc prefix rest (suc n) more in
          let r =
            read_groups-groups n f (v / 128) (position + 1) (acc + v % 128 * 2 ^ (7 * position))
              (prefix ++ (v % 128 + 128) ∷ []) rest (next_bound n v h) (omega arith) in
          let w : ℕ = 2 ^ (7 * position) in
          let same : acc + v % 128 * w + v / 128 * 2 ^ (7 * (position + 1)) ≡ acc + v * w =
            rw (next_weight position) (next_value acc v w) in
          let bytes = append_assoc prefix ((v % 128 + 128) ∷ []) (groups (suc f) (v / 128)) in
          e ∙ r ∙ rw (groups-more (suc f) v position acc prefix rest more, same, bytes) refl
    ]

-- A number of at most five groups is read back from the bytes that are written for it.
pub read_var_int-append_var_int :
    (v : ℕ) (rest : Bytes)
    → v < 34359738368
    → read_var_int (append_var_int [] v ++ rest) ≡ ok (v, append_var_int [] v, rest)
unfolding read_var_int append_var_int
read_var_int-append_var_int v rest h =
    read_groups-groups 4 9 v 0 0 [] rest h (omega arith)
    ∙ ap (λ (n : ℕ). ok (n, append_var_int [] v, rest)) (omega arith)
