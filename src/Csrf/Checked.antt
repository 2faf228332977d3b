-- ===== src/Csrf/Checked.antt =====
-- What a request needs to pass the CSRF middleware.
use hogs.Prelude.{
  true, false, some, List, [], ◌∷◌, ◌++◌, any, All, eqb, ◌≡◌, refl, sym, ap, ◌∙◌, Bool-cases, inl,
  inr, ◌⊎◌, contradicts,
}
use hogs.Prelude.Text.{codes_eq_refl}
use hogs.Csrf.{
  Bytes, dot, Request, Answer, has_prefix, split_first, submitted, verify_csrf_token, are_signed,
  is_signed, compare_tokens, check_cookie, csrf_middleware, csrf_cookie,
}

split_first-append :
    (a b : Bytes) → All (λ c. eqb c dot ≡ false) a → split_first (a ++ dot ∷ b) ≡ some (a, b)
unfolding split_first
split_first-append [] b h = refl
split_first-append (c ∷ a) b h = rw (h.0, split_first-append a b h.1) refl

abbrev joined : Bytes × Bytes → Bytes
joined (a, b) = a ++ dot ∷ b

module _ (sign : Bytes → Bytes → Bytes) (secret : Bytes) where
  is_signed-csrf_cookie :
      (token : Bytes)
      → All (λ c. eqb c dot ≡ false) token
      → is_signed sign secret (some (csrf_cookie sign token secret)) ≡ true
  unfolding is_signed are_signed csrf_cookie verify_csrf_token
  is_signed-csrf_cookie token n =
      ap (are_signed sign secret) (split_first-append token (sign token secret) n)
      ∙ codes_eq_refl (sign token secret)

  check_cookie-csrf_cookie :
      (r : Request) (token : Bytes)
      → All (λ c. eqb c dot ≡ false) token
      → submitted r ≡ token
      → check_cookie sign secret r (some (csrf_cookie sign token secret)) ≡ Answer.passed false
  unfolding check_cookie csrf_cookie compare_tokens verify_csrf_token
  check_cookie-csrf_cookie r token n e =
      rw
        (
          split_first-append token (sign token secret) n,
          codes_eq_refl (sign token secret),
          e,
          codes_eq_refl token,
        )
        refl

  -- With a cookie that the middleware set for a token without a dot, every reading request passes
  -- and keeps the cookie, whatever it submits, and every other request passes that submits the token.
  pub csrf_middleware-csrf_cookie :
      (exempt_prefixes : List Bytes) (r : Request) (token : Bytes)
      → All (λ c. eqb c dot ≡ false) token
      → r.cookie ≡ some (csrf_cookie sign token secret)
      → (r.is_reading ≡ true ⊎ submitted r ≡ token)
      → csrf_middleware sign secret exempt_prefixes r ≡ Answer.passed false
  unfolding csrf_middleware
  csrf_middleware-csrf_cookie exempt_prefixes r token n c w =
      elim (Bool-cases (any (λ prefix. has_prefix prefix r.path) exempt_prefixes)) [
        | inl h ↦ rw h refl
        | inr h ↦ elim (Bool-cases r.is_reading) [
          | inl k ↦ rw (h, k, c, is_signed-csrf_cookie token n) refl
          | inr k ↦ elim w [
            | inl reading ↦ absurd (contradicts (sym reading ∙ k))
            | inr given ↦ rw (h, k, c) (check_cookie-csrf_cookie r token n given)
          ]
        ]
      ]
