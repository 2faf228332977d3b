-- ===== src/Keys/Passed.antt =====
-- The requests that a route with roles lets pass.
use mathlib.Core.Path.{subst}
use hogs.Prelude.{
  String, Bool, true, false, Option, none, some, List, [], ◌∷◌, ◌==◌, ◌++◌, any, ◌≡◌, refl, sym, ap,
  ◌∙◌, arith, Bool-cases, Option-cases, inl, inr,
}
use hogs.Keys.{
  Bytes, Key, Table, Clock, Answer, strip, api_key_prefix, bearer, is_expired, get_by_hash, accept,
  token_of, authenticate, require_role, served, serve,
}

pub strip-append : (ps text : Bytes) → strip ps (ps ++ text) ≡ some text
unfolding strip
strip-append [] text = refl
strip-append (p ∷ ps) text = ground (arith, strip-append ps text)

pub strip-some : (ps text rest : Bytes) → strip ps text ≡ some rest → text ≡ ps ++ rest
unfolding strip
strip-some [] text rest h = ground arith
strip-some (p ∷ ps) [] rest h = absurd (cc)
strip-some (p ∷ ps) (c ∷ text) rest h = ground (arith, strip-some ps text rest)

not_some : (token : Bytes) → ◌≡◌ {A = Option Bytes} none (some token) → ⊥
not_some token h = cc

not_key : (k : Key) → ◌≡◌ {A = Option Key} none (some k) → ⊥
not_key k h = cc

not_forbidden : (k : Key) → Answer.forbidden ≡ Answer.passed k → ⊥
not_forbidden k h = cc

not_unauthorized : (k : Key) → Answer.unauthorized ≡ Answer.passed k → ⊥
not_unauthorized k h = cc

not_internal : (k : Key) → Answer.internal_error ≡ Answer.passed k → ⊥
not_internal k h = cc

abbrev pub key_or : Key → Option Key → Key
key_or other none = other
key_or other (some k) = k

abbrev key_in : Key → Answer → Key
key_in other (Answer.passed k) = k
key_in other answer = other

abbrev token_or : Bytes → Option Bytes → Bytes
token_or other none = other
token_or other (some token) = token

module _ (hash : Bytes → Bytes) (c : Clock) where
  token_of_lem :
      (rest : Bytes)
      → token_of hash c (bearer ++ api_key_prefix ++ rest) ≡ some (api_key_prefix ++ rest)
  unfolding token_of strip
  token_of_lem rest = refl

  -- A request with a key of the table passes.
  pub serve-passes :
      (roles : List String) (rest : Bytes) (t : Table) (k : Key)
      → get_by_hash (hash (api_key_prefix ++ rest)) t.rows ≡ some k
      → is_expired c k.expires_at ≡ false
      → any (λ role. role == k.role) roles ≡ true
      → (serve hash c roles true (bearer ++ api_key_prefix ++ rest) t).0 ≡ Answer.passed k
  unfolding serve authenticate served require_role accept token_of strip
  serve-passes roles rest t k g e r = rw (g, e, r) refl

  token_of-some :
      (header token : Bytes)
      → token_of hash c header ≡ some token
      → (rest : Bytes) × (header ≡ bearer ++ api_key_prefix ++ rest)
        × (token ≡ api_key_prefix ++ rest)
  unfolding token_of
  token_of-some header token h = elim (Option-cases (strip bearer header)) [
    | inl e ↦ absurd (not_some token (rw e at h))
    | inr (after, e) ↦ elim (Option-cases (strip api_key_prefix after)) [
      | inl f ↦ absurd (not_some token (rw (e, f) at h))
      | inr (rest, f) ↦
          let is_after = strip-some api_key_prefix after rest f in
          let is_token : after ≡ token = ap (token_or after) (rw (e, f) at h) in
          (
            rest,
            strip-some bearer header after e ∙ ap (λ (x : Bytes). bearer ++ x) is_after,
            sym is_token ∙ is_after,
          )
    ]
  ]

  accept-some :
      (found : Option Key) (k : Key)
      → accept hash c found ≡ some k
      → (found ≡ some k) × (is_expired c k.expires_at ≡ false)
  unfolding accept
  accept-some none k h = absurd (cc)
  accept-some (some j) k h = elim (Bool-cases (is_expired c j.expires_at)) [
    | inl e ↦ absurd (not_key k (rw e at h))
    | inr e ↦
        let same : ◌≡◌ {A = Option Key} (some j) (some k) = rw e at h in
        (same, subst (λ (x : Key). is_expired c x.expires_at ≡ false) (ap (key_or j) same) e)
  ]

  require_role-passed :
      (roles : List String) (found : Option Key) (k : Key)
      → require_role hash c roles found ≡ Answer.passed k
      → (found ≡ some k) × (any (λ role. role == k.role) roles ≡ true)
  unfolding require_role
  require_role-passed roles none k h = absurd (cc)
  require_role-passed roles (some j) k h = elim (Bool-cases (any (λ role. role == j.role) roles)) [
    | inl e ↦
        let same : j ≡ k = ap (key_in j) (rw e at h) in
        (
          ap (λ (x : Key). some x) same,
          subst (λ (x : Key). any (λ role. role == x.role) roles ≡ true) same e,
        )
    | inr e ↦ absurd (not_forbidden k (rw e at h))
  ]

  -- A request that passes carries a key of the table that has not expired and has one of the roles.
  pub serve_sound :
      (roles : List String) (is_up : Bool) (header : Bytes) (t : Table) (k : Key)
      → (serve hash c roles is_up header t).0 ≡ Answer.passed k
      → (rest : Bytes) × (header ≡ bearer ++ api_key_prefix ++ rest)
        × (get_by_hash (hash (api_key_prefix ++ rest)) t.rows ≡ some k)
        × (is_expired c k.expires_at ≡ false)
        × (any (λ role. role == k.role) roles ≡ true)
  unfolding serve authenticate served require_role
  serve_sound roles is_up header t k h = elim (Option-cases (token_of hash c header)) [
    | inl e ↦ absurd (not_unauthorized k (rw e at h))
    | inr (token, e) ↦
        let (rest, is_header, is_token) = token_of-some header token e in
        elim (Bool-cases is_up) [
          | inl up ↦ elim (Option-cases (accept hash c (get_by_hash (hash token) t.rows))) [
            | inl f ↦ absurd (not_unauthorized k (rw (e, up, f) at h))
            | inr (j, f) ↦
                let (same, r) = require_role-passed roles (some j) k (rw (e, up, f) at h) in
                let (g, x) = accept-some (get_by_hash (hash token) t.rows) k (f ∙ same) in
                (
                  rest,
                  is_header,
                  ap (λ (y : Bytes). get_by_hash (hash y) t.rows) (sym is_token) ∙ g,
                  x,
                  r,
                )
          ]
          | inr down ↦ absurd (not_internal k (rw (e, down) at h))
        ]
  ]
