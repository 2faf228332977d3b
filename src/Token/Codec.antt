-- ===== src/Token/Codec.antt =====
-- The pieces of a capability token: the claims, the libraries that encode and sign them, and the
-- split at the dots (`strings.Split`).
use hogs.Prelude.{
  ℕ, String, false, List, [], ◌∷◌, ◌++◌, Option, some, eqb, if◌then◌else◌, All, ◌≡◌, refl,
}
use hogs.Token.Int64.{ℤ, IsInt64}

abbrev pub Bytes : Type 0
Bytes = List ℕ

pub record Claims : Type 0 where
  pub audience : String
  pub subject : String
  pub method : String
  pub path : String
  pub file_path : String
  pub target_path : String
  pub max_bytes : ℤ
  pub issued_at : ℤ
  pub expires : ℤ
  pub id : String

abbrev pub dot : ℕ
dot = b'.'

abbrev pub NoDot : Bytes → Type 0
NoDot = All (λ c. eqb c dot ≡ false)

-- HMAC-SHA256, `base64.RawURLEncoding` and `encoding/json` on `Claims`: base64 decoding undoes
-- encoding, the alphabet of base64url has no dot, and JSON refuses a number that is no int64.
pub record Libraries : Type 0 where
  pub mac : Bytes → Bytes → Bytes
  pub encode : Bytes → Bytes
  pub decode : Bytes → Option Bytes
  pub marshal : Claims → Bytes
  pub unmarshal : Bytes → Option Claims
  pub decode-encode : (bytes : Bytes) → decode (encode bytes) ≡ some bytes
  pub encode-NoDot : (bytes : Bytes) → NoDot (encode bytes)
  pub unmarshal-IsInt64 :
      (bytes : Bytes) (claims : Claims)
      → unmarshal bytes ≡ some claims
      → IsInt64 claims.issued_at × IsInt64 claims.expires

-- A piece gets one more byte at its front.
pub prepend : ℕ → List Bytes → List Bytes
prepend c [] = (c ∷ []) ∷ []
prepend c (piece ∷ pieces) = (c ∷ piece) ∷ pieces

unfoldable pub split : Bytes → List Bytes
unfolding prepend
split [] = [] ∷ []
split (c ∷ cs) = let rest = split cs in if eqb c dot then [] ∷ rest else prepend c rest

split-NoDot : (a : Bytes) → NoDot a → split a ≡ a ∷ []
unfolding split
split-NoDot [] h = refl
split-NoDot (c ∷ a) h = rw (h.0, split-NoDot a h.1)

pub split-pair : (a b : Bytes) → NoDot a → NoDot b → split (a ++ (dot ∷ b)) ≡ a ∷ b ∷ []
unfolding split
split-pair [] b ha hb = rw (split-NoDot b hb)
split-pair (c ∷ a) b ha hb = rw (ha.0, split-pair a b ha.1 hb)
