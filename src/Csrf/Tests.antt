-- ===== src/Csrf/Tests.antt =====
-- A token, its cookie, and requests with it. A signature is the token with the secret behind it.
use hogs.Prelude.{true, false, none, some, inl, [], ◌∷◌, ◌++◌, ◌≡◌, refl}
use hogs.Csrf.{Bytes, Request, Answer, csrf_middleware, csrf_cookie}
use hogs.Csrf.Checked.{csrf_middleware-csrf_cookie}

abbrev signing : Bytes → Bytes → Bytes
signing token secret = token ++ secret

abbrev posted : Request
posted = record {
  path = 47 ∷ 97 ∷ [];
  is_reading = false;
  cookie = some (1 ∷ 2 ∷ 46 ∷ 1 ∷ 2 ∷ 9 ∷ []);
  form_value = [];
  header = 1 ∷ 2 ∷ [];
}

abbrev forged : Request
forged = record posted { header = 1 ∷ 3 ∷ [] }

is_refused : csrf_middleware signing (9 ∷ []) [] forged ≡ Answer.token_mismatch
unfolding csrf_middleware
is_refused = refl

-- Without its cookie the request is refused.
is_refused_bare :
    csrf_middleware signing (9 ∷ []) [] (record posted { cookie = none }) ≡ Answer.token_missing
unfolding csrf_middleware
is_refused_bare = refl

-- A page that is read without a token.
abbrev page : Request
page = record posted { is_reading = true; header = [] }

csrf_middleware-csrf_cookie_example : csrf_middleware signing (9 ∷ []) [] page ≡ Answer.passed false
unfolding csrf_cookie
csrf_middleware-csrf_cookie_example =
    csrf_middleware-csrf_cookie signing (9 ∷ []) [] page (1 ∷ 2 ∷ []) (refl, (refl, tt)) refl
      (inl refl)
