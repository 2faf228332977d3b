-- ===== src/Token.antt =====
-- internal/capability/capability.go: signed capabilities between the control plane and its agents.
-- A token is the list of its bytes. HMAC-SHA256, base64url and JSON are parameters, with the laws
-- that the token format relies on. The times of a token are int64, the time of day is seconds after the
-- epoch and far from the end of an int64.
pub mod Int64
pub mod Codec
pub mod Signed
mod Tests
use hogs.Prelude.{
  ℕ, ◌+◌, ◌<◌, String, Bool, true, false, not, ◌&&◌, ◌||◌, List, [], ◌∷◌, ◌++◌, Option, none, some,
  ltb, eqb, length, ◌==◌, if◌then◌else◌,
}
use hogs.Prelude.Text.{codes_eq}
use hogs.Prelude.Fallible.{Result, ok, err, ◌>>=◌}
use hogs.Token.Int64.{ℤ, pos, ltb_int, is_zero, sub64}
use hogs.Token.Codec.{Bytes, Claims, Libraries, split, dot}

pub data Refusal : Type 0 where
  short_secret malformed bad_signature_encoding wrong_signature bad_payload : Refusal
  incomplete not_active expired too_long : Refusal

-- `NewClaims`, at a time and with the random identifier; a lifetime of 0 is the default.
unfoldable pub new_claims : String → String → String → String → String → ℤ → ℕ → ℕ → String → Claims
new_claims audience subject method path file_path max_bytes lifetime now id = record {
  audience = audience;
  subject = subject;
  method = method;
  path = path;
  file_path = file_path;
  target_path = "";
  max_bytes = max_bytes;
  issued_at = pos now;
  expires = pos (now + (if eqb lifetime 0 then 90 else lifetime));
  id = id;
}

module _ (lib : Libraries) where
  open lib use {mac, encode, decode, marshal, unmarshal}

  -- `Sign`
  unfoldable pub sign : Bytes → Claims → Result Refusal Bytes
  sign secret claims =
      if ltb (length secret) 32
      then err short_secret
      else let encoded = encode (marshal claims) in
        ok (encoded ++ (dot ∷ encode (mac secret encoded)))

  unfoldable pub is_complete : Claims → Bool
  is_complete claims = not (
      claims.audience == ""
      || claims.subject == ""
      || claims.method == ""
      || claims.path == ""
      || claims.id == ""
      || is_zero claims.expires)

  -- The checks on the decoded claims.
  unfoldable pub check_claims : ℕ → Claims → Result Refusal Claims
  unfolding is_complete
  check_claims now claims =
      if not (is_complete claims)
      then err incomplete
      else if ltb_int (pos (now + 30)) claims.issued_at
      then err not_active
      else if ltb_int claims.expires (pos now)
      then err expired
      else if ltb_int (pos 300) (sub64 claims.expires claims.issued_at)
      then err too_long
      else ok claims

  unfoldable pub decode_or : Refusal → Option Bytes → Result Refusal Bytes
  decode_or e none = err e
  decode_or e (some bytes) = ok bytes

  unfoldable pub claims_or : Option Claims → Result Refusal Claims
  claims_or none = err bad_payload
  claims_or (some claims) = ok claims

  unfoldable pub guard : Bool → Refusal → Result Refusal (Unit {0})
  guard true e = ok tt
  guard false e = err e

  unfoldable pub verify_parts : Bytes → ℕ → List Bytes → Result Refusal Claims
  unfolding check_claims decode_or claims_or guard
  verify_parts secret now (payload_part ∷ signature_part ∷ []) = do
    signature ← decode_or bad_signature_encoding (decode signature_part)
    _ ← guard (codes_eq signature (mac secret payload_part)) wrong_signature
    payload ← decode_or bad_payload (decode payload_part)
    claims ← claims_or (unmarshal payload)
    check_claims now claims
  verify_parts secret now _ = err malformed

  -- `Verify`
  unfoldable pub verify : Bytes → Bytes → ℕ → Result Refusal Claims
  unfolding verify_parts
  verify secret token now = verify_parts secret now (split token)

-- `AuthorizePaths`: the field that does not match, if any.
pub data Mismatch : Type 0 where
  audience method path file_path target_path : Mismatch

unfoldable pub authorize_paths :
    Claims → String → String → String → String → String → Option Mismatch
authorize_paths claims a m p f t =
    if not (claims.audience == a)
    then some Mismatch.audience
    else if not (claims.method == m)
    then some Mismatch.method
    else if not (claims.path == p)
    then some Mismatch.path
    else if not (claims.file_path == f)
    then some Mismatch.file_path
    else if not (claims.target_path == t)
    then some Mismatch.target_path
    else none

unfoldable pub authorize : Claims → String → String → String → String → Option Mismatch
unfolding authorize_paths
authorize claims a m p f = authorize_paths claims a m p f ""
