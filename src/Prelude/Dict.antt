-- ===== src/Prelude/Dict.antt =====
-- A Go map with string keys, as the function that looks a key up. A loop over such a map that
-- treats every key alike is a function of the entry.
use Prim.Native.String.{String}
use mathlib.Core.Path.{◌≡◌}
use mathlib.Core.Logic.{◌≢◌}
use mathlib.Core.Option.{Option, none, some}
use native.Mathlib.Omega.{arith}
use text.Mathlib.Text.{◌==◌}
use text.Mathlib.TextEquality.{eq_iff}
use hogs.Prelude.Tests.{if◌then◌else◌}

abbrev pub Dict {ℓ} : Type ℓ → Type ℓ
Dict V = String → Option V

module _ {ℓ} {V : Type ℓ} where
  abbrev pub empty : Dict V
  empty key = none

  -- m[k] = v
  abbrev pub put : String → V → Dict V → Dict V
  put k v m key = if k == key then some v else m key

  -- delete(m, k)
  abbrev pub remove : String → Dict V → Dict V
  remove k m key = if k == key then none else m key

  pub put_other : (k key : String) (v : V) (m : Dict V) → k ≢ key → put k v m key ≡ m key
  put_other k key v m h = ground (arith, eq_iff k key)
