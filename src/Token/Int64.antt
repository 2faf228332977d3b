-- ===== src/Token/Int64.antt =====
-- Signed 64-bit integers: Go's int64, whose differences wrap around.
use hogs.Prelude.{
  ℕ, suc, ◌+◌, ◌-◌, ◌%◌, ◌≤◌, ◌<◌, Bool, false, ltb, leb, eqb, if◌then◌else◌, ◌≡◌, ◌⊎◌, inl, inr,
  arith, Bool-cases,
}

-- `negsuc n` is -(n + 1).
pub data ℤ : Type 0 where
  pos : ℕ → ℤ
  negsuc : ℕ → ℤ

abbrev pub pos_part : ℤ → ℕ
pos_part (pos n) = n
pos_part (negsuc n) = 0

abbrev pub neg_part : ℤ → ℕ
neg_part (pos n) = 0
neg_part (negsuc n) = suc n

-- The difference of two natural numbers.
abbrev pub sub_ℕ : ℕ → ℕ → ℤ
sub_ℕ a b = if leb b a then pos (a - b) else negsuc (b - a - 1)

abbrev pub ltb_int : ℤ → ℤ → Bool
ltb_int a b = ltb (pos_part a + neg_part b) (pos_part b + neg_part a)

abbrev pub is_zero : ℤ → Bool
is_zero a = eqb (pos_part a + neg_part a) 0

infix 50 ◌≤ℤ◌
abbrev pub ◌≤ℤ◌ : ℤ → ℤ → Type 0
a ≤ℤ b = pos_part a + neg_part b ≤ pos_part b + neg_part a

abbrev pub half : ℕ
half = 9223372036854775808

abbrev pub word : ℕ
word = 18446744073709551616

-- The range of an int64.
abbrev pub IsInt64 : ℤ → Type 0
IsInt64 a = (pos_part a < half) × (neg_part a ≤ half)

-- The bit pattern of an integer, and the integer that a pattern stands for.
abbrev pattern_of : ℤ → ℕ
pattern_of (pos n) = n % word
pattern_of (negsuc n) = word - 1 - n % word

abbrev signed : ℕ → ℤ
signed w = if ltb w half then pos w else negsuc (word - w - 1)

-- `a - b` of two int64.
unfoldable pub sub64 : ℤ → ℤ → ℤ
sub64 a b = signed (pattern_of (sub_ℕ (pos_part a + neg_part b) (pos_part b + neg_part a)))

small_pattern : (d : ℕ) → d < half → signed (pattern_of (pos d)) ≡ pos d
small_pattern d h = let e : d % word ≡ d = omega (arith, h) in rw e (ground (arith, h))

sub_ℕ-pos : (a b : ℕ) → b ≤ a → sub_ℕ a b ≡ pos (a - b)
sub_ℕ-pos a b h = ground (arith, h)

pub sub64-add : (n d : ℕ) → d < half → sub64 (pos (n + d)) (pos n) ≡ pos d
unfolding sub64
sub64-add n d h =
    let e : sub_ℕ (n + d + 0) (n + 0) ≡ pos d = ground arith in rw e (small_pattern d h)

sub64-small :
    (e : ℕ) (i : ℤ)
    → pos_part i ≤ e + neg_part i
    → e + neg_part i < half
    → sub64 (pos e) i ≡ pos (e + neg_part i - pos_part i)
unfolding sub64
sub64-small e (pos i) l h =
    let d : sub_ℕ (e + 0) (i + 0) ≡ pos (e + 0 - i) = ground (arith, l) in
    rw d (small_pattern (e + 0 - i) (omega (arith, h)))
sub64-small e (negsuc i) l h =
    let d : sub_ℕ (e + suc i) (0 + 0) ≡ pos (e + suc i - 0) = ground arith in
    rw d (small_pattern (e + suc i - 0) (omega (arith, h)))

-- A difference that is at most a bound is so for the integers, or it is at least 2^63.
pub sub64-le :
    (e bound : ℕ) (i : ℤ)
    → ltb_int (pos bound) (sub64 (pos e) i) ≡ false
    → (e + neg_part i ≤ pos_part i + bound) ⊎ (half ≤ e + neg_part i)
sub64-le e bound i k = elim (Bool-cases (leb half (e + neg_part i))) [
  | inl l ↦ inr (ground (arith, l))
  | inr l ↦ elim (Bool-cases (leb (pos_part i) (e + neg_part i))) [
    | inl m ↦
        let small = sub64-small e i (ground (arith, m)) (ground (arith, l)) in
        let k' : ltb_int (pos bound) (pos (e + neg_part i - pos_part i)) ≡ false = rw small at k in
        inl (ground (arith, k', m))
    | inr m ↦ inl (ground (arith, m))
  ]
]
