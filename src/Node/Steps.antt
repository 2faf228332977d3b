-- ===== src/Node/Steps.antt =====
-- Operations that change the world outside the program and may fail: Go's (value, error) calls in the
-- order in which they are made. `W` is the world as it is at one moment.
use hogs.Prelude.{Bool, true, false, if◌then◌else◌, ◌≡◌, refl}
use hogs.Prelude.Fallible.{Result, ok, err}

abbrev pub Op : Type 0 → Type 0 → Type 0 → Type 0
Op W E A = W → Result E A × W

module _ {W : Type 0} {E A : Type 0} where
  abbrev pub return : A → Op W E A
  return a w = (ok a, w)

  abbrev pub fail : E → Op W E A
  fail e w = (err e, w)

  -- What was computed without the world, and what the world shows.
  abbrev pub computed : Result E A → Op W E A
  computed r w = (r, w)

  unfoldable pub observe : (W → A) → Op W E A
  observe look w = (ok (look w), w)

  abbrev next : {B : Type 0} → Result E A × W → (A → Op W E B) → Result E B × W
  next (ok a, w) f = f a w
  next (err e, w) f = (err e, w)

  infixl 5 ◌>>=◌
  unfoldable pub ◌>>=◌ : {B : Type 0} → Op W E A → (A → Op W E B) → Op W E B
  (m >>= f) w = next (m w) f

  infixl 5 ◌>>◌
  unfoldable pub ◌>>◌ : {B : Type 0} → Op W E A → Op W E B → Op W E B
  (m >> n) w = next (m w) (λ _. n)

  abbrev recovered : {F : Type 0} → Result E A × W → (E → Op W F A) → Result F A × W
  recovered (ok a, w) h = (ok a, w)
  recovered (err e, w) h = h e w

  -- if err := m(); err != nil { return h(err) }
  infixl 6 ◌or_else◌
  unfoldable pub ◌or_else◌ : {F : Type 0} → Op W E A → (E → Op W F A) → Op W F A
  (m or_else h) w = recovered (m w) h

  abbrev held : {F : Type 0} → Result E A × W → Result F (Result E A) × W
  held r = (ok r.0, r.1)

  abbrev cleaned : {F : Type 0} → Result E A × W → Op W F (Unit {0}) → Result E A × W
  cleaned r c = (r.0, (c r.1).1)

  -- err := m(), and the error is looked at later, or never.
  unfoldable pub attempt : {F : Type 0} → Op W E A → Op W F (Result E A)
  attempt m w = held (m w)

  -- if b { m() } else { n() }
  infix 1 on◌run◌otherwise◌
  unfoldable pub on◌run◌otherwise◌ : Bool → Op W E A → Op W E A → Op W E A
  (on b run m otherwise n) w = (if b then m else n) w

  -- defer c()
  infixl 4 ◌deferred◌
  unfoldable pub ◌deferred◌ : {F : Type 0} → Op W E A → Op W F (Unit {0}) → Op W E A
  (m deferred c) w = cleaned (m w) c

abbrev pub advance : {W E : Type 0} → (W → W) → Op W E (Unit {0})
advance step w = (ok tt, step w)

module _ {W : Type 0} {E A : Type 0} where
  -- What an operation promises: `Q` of its value and `R` of its error, with the world it leaves.
  abbrev pub Outcome : (A → W → Type 0) → (E → W → Type 0) → Result E A × W → Type 0
  Outcome Q R (ok a, w) = Q a w
  Outcome Q R (err e, w) = R e w

  pub record Ends (Q : A → W → Type 0) (R : E → W → Type 0) (r : Result E A × W) : Type 0 where
    pub so : Outcome Q R r

  -- Whatever the result, the world that is left has the property.
  abbrev pub Leaves : (W → Type 0) → Result E A × W → Type 0
  Leaves P = Ends (λ _. P) (λ _. P)

  pub leaves_lem : {P : W → Type 0} (r : Result E A × W) → P r.1 → Leaves P r
  leaves_lem (ok a, w) h = record { so = h }
  leaves_lem (err e, w) h = record { so = h }

  pub left_lem : {r : Result E A × W} {P : W → Type 0} → Leaves P r → P r.1
  left_lem {r = (ok a, w)} h = h.so
  left_lem {r = (err e, w)} h = h.so

  module _ {r : Result E A × W} {P Q : A → W → Type 0} {R S : E → W → Type 0} where
    pub weaken :
        ((a : A) (w : W) → P a w → Q a w)
        → ((e : E) (w : W) → R e w → S e w)
        → Ends P R r
        → Ends Q S r
    weaken f g h = go r f g h
      where
        go :
            (r : Result E A × W)
            → ((a : A) (w : W) → P a w → Q a w)
            → ((e : E) (w : W) → R e w → S e w)
            → Ends P R r
            → Ends Q S r
        go (ok a, w) f g h = record { so = f a w h.so }
        go (err e, w) f g h = record { so = g e w h.so }

  pub never_lem :
      {r : Result E A × W} {Q : A → W → Type 0} {R : E → W → Type 0}
      → Ends (λ _ _. ⊥) R r
      → Ends Q R r
  never_lem {r = (ok a, w)} h = absurd h.so
  never_lem {r = (err e, w)} h = record { so = h.so }

module _ {W E A B : Type 0} {P : A → W → Type 0} {Q : B → W → Type 0} {R : E → W → Type 0} where
  next_ends :
      (r : Result E A × W) (f : A → Op W E B)
      → Ends P R r
      → ((a : A) (w : W) → P a w → Ends Q R (f a w))
      → Ends Q R (next r f)
  next_ends (ok a, w) f h k = k a w h.so
  next_ends (err e, w) f h k = record { so = h.so }

  pub bind_lem :
      (m : Op W E A) (f : A → Op W E B) (w : W)
      → Ends P R (m w)
      → ((a : A) (v : W) → P a v → Ends Q R (f a v))
      → Ends Q R ((m >>= f) w)
  unfolding ◌>>=◌
  bind_lem m f w = next_ends (m w) f

  pub then_lem :
      (m : Op W E A) (n : Op W E B) (w : W)
      → Ends P R (m w)
      → ((a : A) (v : W) → P a v → Ends Q R (n v))
      → Ends Q R ((m >> n) w)
  unfolding ◌>>◌
  then_lem m n w = next_ends (m w) (λ _. n)

module _ {W E F A : Type 0} {P : E → W → Type 0} {Q : A → W → Type 0} {R : F → W → Type 0} where
  recovered_ends :
      (r : Result E A × W) (h : E → Op W F A)
      → Ends Q P r
      → ((e : E) (w : W) → P e w → Ends Q R (h e w))
      → Ends Q R (recovered r h)
  recovered_ends (ok a, w) h q k = record { so = q.so }
  recovered_ends (err e, w) h q k = k e w q.so

  pub or_else_lem :
      (m : Op W E A) (h : E → Op W F A) (w : W)
      → Ends Q P (m w)
      → ((e : E) (v : W) → P e v → Ends Q R (h e v))
      → Ends Q R ((m or_else h) w)
  unfolding ◌or_else◌
  or_else_lem m h w = recovered_ends (m w) h

module _ {W E F A B : Type 0} {S : B → W → Type 0} {R : F → W → Type 0} where
  attempt_ends :
      (m : Op W E A) (f : Result E A → Op W F B) (w : W)
      → Ends S R (f (m w).0 (m w).1)
      → Ends S R ((attempt m >>= f) w)
  unfolding ◌>>=◌ attempt
  attempt_ends m f w h = h

  pub attempt_lem :
      {Q : A → W → Type 0} {P : E → W → Type 0} (m : Op W E A) (f : Result E A → Op W F B) (w : W)
      → Ends Q P (m w)
      → ((r : Result E A) (v : W) → Outcome Q P (r, v) → Ends S R (f r v))
      → Ends S R ((attempt m >>= f) w)
  attempt_lem m f w h k = attempt_ends m f w (k (m w).0 (m w).1 h.so)

  pub attempt-Leaves :
      {P : W → Type 0} (m : Op W E A) (f : Result E A → Op W F B) (w : W)
      → Leaves P (m w)
      → ((r : Result E A) (v : W) → P v → Ends S R (f r v))
      → Ends S R ((attempt m >>= f) w)
  attempt-Leaves m f w h k = attempt_ends m f w (k (m w).0 (m w).1 (left_lem h))

module _ {W E B : Type 0} {Q : B → W → Type 0} {R : E → W → Type 0} where
  pub observe_lem :
      {A : Type 0} (look : W → A) (f : A → Op W E B) (w : W)
      → Ends Q R (f (look w) w)
      → Ends Q R ((observe look >>= f) w)
  unfolding ◌>>=◌ observe
  observe_lem look f w h = h

  pub computed_lem :
      {A : Type 0} {P : A → W → Type 0} (r : Result E A) (f : A → Op W E B) (w : W)
      → Ends P R (r, w)
      → ((a : A) → P a w → Ends Q R (f a w))
      → Ends Q R ((computed r >>= f) w)
  unfolding ◌>>=◌
  computed_lem (ok a) f w h k = k a h.so
  computed_lem (err e) f w h k = record { so = h.so }

  pub advance_lem :
      (step : W → W) (n : Op W E B) (w : W)
      → Ends Q R (n (step w))
      → Ends Q R ((advance step >> n) w)
  unfolding ◌>>◌
  advance_lem step n w h = h

  pub on_lem :
      (b : Bool) (m n : Op W E B) (w : W)
      → (b ≡ true → Ends Q R (m w))
      → (b ≡ false → Ends Q R (n w))
      → Ends Q R ((on b run m otherwise n) w)
  unfolding on◌run◌otherwise◌
  on_lem true m n w h k = h refl
  on_lem false m n w h k = k refl

module _ {W E F A : Type 0} {P Q : A → W → Type 0} {R S : E → W → Type 0} where
  deferred_ends :
      (r : Result E A × W) (c : Op W F (Unit {0}))
      → Ends P R r
      → ((a : A) (v : W) → P a v → Q a (c v).1)
      → ((e : E) (v : W) → R e v → S e (c v).1)
      → Ends Q S (r.0, (c r.1).1)
  deferred_ends (ok a, w) c h f g = record { so = f a w h.so }
  deferred_ends (err e, w) c h f g = record { so = g e w h.so }

  pub deferred_lem :
      (m : Op W E A) (c : Op W F (Unit {0})) (w : W)
      → Ends P R (m w)
      → ((a : A) (v : W) → P a v → Q a (c v).1)
      → ((e : E) (v : W) → R e v → S e (c v).1)
      → Ends Q S ((m deferred c) w)
  unfolding ◌deferred◌
  deferred_lem m c w = deferred_ends (m w) c

-- `_ = m()` and an early return, or one that tells the error of m.
module _ {W E F A : Type 0} where
  abbrev pub quietly : Op W E (Unit {0}) → F → Op W F A
  quietly m failure = do _ ← attempt m; fail failure

  abbrev pub telling : Op W E (Unit {0}) → (Result E (Unit {0}) → F) → Op W F A
  telling m failure = do result ← attempt m; fail (failure result)
