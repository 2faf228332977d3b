-- ===== src/Csrf.antt =====
-- auth/csrf.go: the middleware that checks the token of every request that may change something. A
-- text is the list of its bytes; the base64 text of the HMAC-SHA256 of a token under a secret is a
-- parameter.
pub mod Checked
mod Tests
use hogs.Prelude.{
  ℕ, Bool, true, false, not, ◌&&◌, ◌||◌, Option, none, some, List, [], ◌∷◌, ◌++◌, any, eqb,
  if◌then◌else◌,
}
use hogs.Prelude.Text.{codes_eq}

abbrev pub Bytes : Type 0
Bytes = List ℕ

abbrev pub dot : ℕ
dot = b'.'

-- A request, with what the standard library reads from it: whether the method is GET, HEAD or
-- OPTIONS, the cookie `hogs-csrf`, the form field and the header (empty where they are missing).
pub record Request : Type 0 where
  pub path : Bytes
  pub is_reading : Bool
  pub cookie : Option Bytes
  pub form_value : Bytes
  pub header : Bytes

-- The request is passed on, with a new cookie or not, or is answered by an error.
pub data Answer : Type 0 where
  passed : Bool → Answer
  token_missing invalid_token token_mismatch : Answer

unfoldable pub has_prefix : Bytes → Bytes → Bool
has_prefix prefix [] = codes_eq prefix []
has_prefix [] (c ∷ cs) = true
has_prefix (p ∷ ps) (c ∷ cs) = eqb p c && has_prefix ps cs

-- `strings.SplitN` of a cookie at its first dot, if it has one
unfoldable pub split_first : Bytes → Option (Bytes × Bytes)
split_first [] = none
split_first (c ∷ cs) =
    let rest = split_first cs in
    if eqb c dot then some ([], cs) else elim rest [ none ↦ none | some (a, b) ↦ some (c ∷ a, b) ]

unfoldable pub submitted : Request → Bytes
submitted r = if codes_eq r.form_value [] then r.header else r.form_value

module _ (sign_csrf_token : Bytes → Bytes → Bytes) where
  unfoldable pub verify_csrf_token : Bytes → Bytes → Bytes → Bool
  verify_csrf_token token signature secret = codes_eq signature (sign_csrf_token token secret)

  -- Does a cookie hold a token with its signature?
  unfoldable pub are_signed : Bytes → Option (Bytes × Bytes) → Bool
  unfolding verify_csrf_token
  are_signed secret none = false
  are_signed secret (some (token, signature)) = verify_csrf_token token signature secret

  unfoldable pub is_signed : Bytes → Option Bytes → Bool
  unfolding are_signed split_first
  is_signed secret none = false
  is_signed secret (some value) = are_signed secret (split_first value)

  -- The token and the signature of a cookie, against the submitted token.
  unfoldable pub compare_tokens : Bytes → Bytes → Option (Bytes × Bytes) → Answer
  unfolding verify_csrf_token
  compare_tokens secret given none = Answer.invalid_token
  compare_tokens secret given (some (token, signature)) =
      if not (verify_csrf_token token signature secret)
      then Answer.invalid_token
      else if not (codes_eq given token)
      then Answer.token_mismatch
      else Answer.passed false

  unfoldable pub check_cookie : Bytes → Request → Option Bytes → Answer
  unfolding compare_tokens split_first submitted
  check_cookie secret r none = Answer.token_missing
  check_cookie secret r (some value) = compare_tokens secret (submitted r) (split_first value)

  -- `CSRFMiddleware`
  unfoldable pub csrf_middleware : Bytes → List Bytes → Request → Answer
  unfolding has_prefix is_signed check_cookie
  csrf_middleware secret exempt_prefixes r =
      if any (λ prefix. has_prefix prefix r.path) exempt_prefixes
      then Answer.passed false
      else if r.is_reading
      then Answer.passed (not (is_signed secret r.cookie))
      else check_cookie secret r r.cookie

  -- The value of the cookie of `setCSRFCookie`, for the random token.
  unfoldable pub csrf_cookie : Bytes → Bytes → Bytes
  csrf_cookie token secret = token ++ dot ∷ sign_csrf_token token secret

unfoldable pub csrf_token_from_request : Request → Bytes
unfolding split_first
csrf_token_from_request r = elim r.cookie [
  | none ↦ []
  | some value ↦ elim (split_first value) [ none ↦ [] | some (token, signature) ↦ token ]
]
