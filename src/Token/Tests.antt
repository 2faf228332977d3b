-- ===== src/Token/Tests.antt =====
-- Runs of the token format with toy libraries: a signature that mixes the lengths, an encoding that
-- shifts every byte past the dot, and the JSON of one claim.
use mathlib.Core.Path.{subst}
use hogs.Prelude.{
  ◌+◌, ◌-◌, [], ◌∷◌, Option, none, some, ap, leb, length, replicate, if◌then◌else◌, ◌≡◌, refl,
  arith,
}
use hogs.Prelude.Fallible.{ok, err}
use hogs.Token.Codec.{Bytes, Claims, Libraries, NoDot, split, dot}
use hogs.Token.{expired, wrong_signature, new_claims, sign, check_claims, verify}
use hogs.Token.Int64.{pos, negsuc, half, IsInt64, sub64}
use hogs.Token.Signed.{InTime, verify_sound, verify-sign-new_claims}

shift : Bytes → Bytes
shift [] = []
shift (c ∷ cs) = (c + 47) ∷ shift cs

unshift : Bytes → Bytes
unshift [] = []
unshift (c ∷ cs) = (c - 47) ∷ unshift cs

unshift-shift : (bytes : Bytes) → some (unshift (shift bytes)) ≡ some bytes
unfolding shift unshift
unshift-shift [] = refl
unshift-shift (c ∷ cs) = ground (arith, unshift-shift cs)

shift-NoDot : (bytes : Bytes) → NoDot (shift bytes)
unfolding shift
shift-NoDot [] = tt
shift-NoDot (c ∷ cs) = (ground arith, shift-NoDot cs)

abbrev claims : Claims
unfolding new_claims
claims =
    new_claims "node1" "alice" "GET" "/v1/servers/valheim/files" "world.db" (pos 0) 90 1000 "a1"

abbrev claims_or_own : Claims → Option Claims → Claims
claims_or_own c none = c
claims_or_own c (some d) = d

read-IsInt64 :
    (bytes : Bytes) (c : Claims) → some claims ≡ some c → IsInt64 c.issued_at × IsInt64 c.expires
unfolding claims
read-IsInt64 bytes c h =
    subst (λ (x : Claims). IsInt64 x.issued_at × IsInt64 x.expires) (ap (claims_or_own c) h)
      ((omega arith, omega arith), (omega arith, omega arith))

toy : Libraries
unfolding shift unshift
toy = record {
  mac = λ secret payload. (length secret + length payload) ∷ [];
  encode = shift;
  decode = λ bytes. some (unshift bytes);
  marshal = λ c. 123 ∷ 125 ∷ [];
  unmarshal = λ bytes. some claims;
  decode-encode = unshift-shift;
  encode-NoDot = shift-NoDot;
  unmarshal-IsInt64 = read-IsInt64;
}

abbrev secret : Bytes
secret = replicate 32 7

abbrev token : Bytes
token = 170 ∷ 172 ∷ dot ∷ 81 ∷ []

signed : sign toy secret claims ≡ ok token
unfolding sign toy claims
signed = refl

verified : verify toy secret token 1090 ≡ ok claims
unfolding verify toy split claims sub64
verified = refl

forged : verify toy secret (170 ∷ 172 ∷ dot ∷ 82 ∷ []) 1090 ≡ err wrong_signature
unfolding verify toy split
forged = refl

verify-sign-new_claims_example :
    verify toy secret token 1091 ≡ (if leb 1091 (1000 + 90) then ok claims else err expired)
unfolding toy claims
verify-sign-new_claims_example =
    verify-sign-new_claims toy secret token "node1" "alice" "GET" "/v1/servers/valheim/files"
      "world.db" "a1" (pos 0) 90 1000 1091 refl signed refl refl refl refl refl (omega arith)
      (omega arith) (omega arith)

-- Claims of a second before the epoch that expire at the end of an int64 are not too long.
abbrev endless : Claims
endless = record claims { issued_at = negsuc 0; expires = pos (half - 1) }

wraps : check_claims toy 1090 endless ≡ ok endless
unfolding check_claims sub64 claims
wraps = refl

verify_sound_example :
    (payload signature bytes : Bytes) × (split token ≡ payload ∷ signature ∷ [])
    × (toy.decode signature ≡ some (toy.mac secret payload))
    × (toy.decode payload ≡ some bytes)
    × (toy.unmarshal bytes ≡ some claims)
    × InTime toy 1090 claims
verify_sound_example = verify_sound toy secret token 1090 claims verified
