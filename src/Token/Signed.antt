-- ===== src/Token/Signed.antt =====
-- What a verified capability stands for: it was signed with the secret and is in its short life,
-- and every capability that is issued verifies during its lifetime.
use mathlib.Core.Path.{subst}
use hogs.Prelude.{
  ℕ, ◌+◌, ◌≤◌, ◌<◌, String, false, List, [], ◌∷◌, ◌++◌, none, some, leb, ◌==◌, if◌then◌else◌,
  eq_iff, ◌≡◌, ◌⊎◌, ◌↔◌, refl, ◌∙◌, ap, arith, Bool-cases, Option-cases, inl, inr,
}
use hogs.Prelude.Text.{codes_eq, codes_eq_refl, codes_eq→eq}
use hogs.Prelude.Fallible.{Result, ok, err}
use hogs.Token.Int64.{
  ℤ, pos, negsuc, pos_part, neg_part, ltb_int, ◌≤ℤ◌, half, IsInt64, sub64, sub64-add, sub64-le,
}
use hogs.Token.Codec.{Bytes, Claims, Libraries, split, split-pair, dot}
use hogs.Token.{
  Refusal, expired, new_claims, sign, is_complete, check_claims, decode_or, claims_or, guard,
  verify_parts, verify, authorize_paths,
}

refused : {e : Refusal} {c : Claims} → ◌≡◌ {A = Result Refusal Claims} (err e) (ok c) → ⊥
refused h = cc

claims_of : Claims → Result Refusal Claims → Claims
claims_of c (ok d) = d
claims_of c (err e) = c

same : {c d : Claims} → ◌≡◌ {A = Result Refusal Claims} (ok c) (ok d) → c ≡ d
unfolding claims_of
same {c} h = ap (claims_of c) h

module _ (lib : Libraries) where
  open lib use {
    mac, encode, decode, marshal, unmarshal, decode-encode, encode-NoDot, unmarshal-IsInt64,
  }

  sign-token :
      (secret : Bytes) (claims : Claims) (token : Bytes)
      → sign lib secret claims ≡ ok token
      → token ≡ encode (marshal claims) ++ (dot ∷ encode (mac secret (encode (marshal claims))))
  unfolding sign
  sign-token secret claims token h = ground arith

  -- Whatever was signed is read back, up to the checks on the claims.
  verify-sign :
      (secret : Bytes) (claims : Claims) (token : Bytes) (now : ℕ)
      → unmarshal (marshal claims) ≡ some claims
      → sign lib secret claims ≡ ok token
      → verify lib secret token now ≡ check_claims lib now claims
  unfolding verify verify_parts decode_or guard claims_or
  verify-sign secret claims token now json h =
      let encoded = encode (marshal claims) in
      rw (
        sign-token secret claims token h,
        split-pair encoded (encode (mac secret encoded)) (encode-NoDot _) (encode-NoDot _),
        decode-encode,
        codes_eq_refl,
        decode-encode,
        json,
      )

  -- The claims live at most that many seconds, or were issued before the epoch and so long ago that
  -- the int64 of their lifetime wraps around.
  abbrev pub LivesAtMost : ℕ → Claims → Type 0
  LivesAtMost bound claims =
      (pos_part claims.expires + neg_part claims.issued_at ≤ pos_part claims.issued_at + bound)
      ⊎ ((claims.issued_at ≤ℤ negsuc 0)
          × (half ≤ pos_part claims.expires + neg_part claims.issued_at))

  lives_lem :
      (now : ℕ) (expires issued : ℤ)
      → IsInt64 expires
      → ltb_int expires (pos now) ≡ false
      → ltb_int (pos 300) (sub64 expires issued) ≡ false
      → (pos_part expires + neg_part issued ≤ pos_part issued + 300)
        ⊎ ((issued ≤ℤ negsuc 0) × (half ≤ pos_part expires + neg_part issued))
  lives_lem now (negsuc e) issued range h k = absurd (ground (arith, h))
  lives_lem now (pos e) (pos i) range h k = elim (sub64-le e 300 (pos i) k) [
    | inl short ↦ inl short
    | inr long ↦ absurd (omega (arith, long, range.0))
  ]
  lives_lem now (pos e) (negsuc i) range h k = elim (sub64-le e 300 (negsuc i) k) [
    | inl short ↦ inl short
    | inr long ↦ inr (omega arith, long)
  ]

  -- What the checks on the claims leave.
  abbrev pub InTime : ℕ → Claims → Type 0
  InTime now claims =
      (claims.issued_at ≤ℤ pos (now + 30)) × (pos now ≤ℤ claims.expires) × LivesAtMost 300 claims

  checked_lem :
      (now : ℕ) (read claims : Claims)
      → IsInt64 read.expires
      → check_claims lib now read ≡ ok claims
      → (read ≡ claims) × InTime now read
  unfolding check_claims
  checked_lem now read claims range h = elim (Bool-cases (is_complete lib read)) [
    | inr c ↦ absurd (refused (rw c at h))
    | inl c ↦ elim (Bool-cases (ltb_int (pos (now + 30)) read.issued_at)) [
      | inl a ↦ absurd (refused (rw (c, a) at h))
      | inr a ↦ elim (Bool-cases (ltb_int read.expires (pos now))) [
        | inl b ↦ absurd (refused (rw (c, a, b) at h))
        | inr b ↦ elim (Bool-cases (ltb_int (pos 300) (sub64 read.expires read.issued_at))) [
          | inl l ↦ absurd (refused (rw (c, a, b, l) at h))
          | inr l ↦ (
            same (rw (c, a, b, l) at h),
            (
              ground (arith, a),
              ground (arith, b),
              lives_lem now read.expires read.issued_at range b l,
            ),
          )
        ]
      ]
    ]
  ]

  parts_sound :
      (secret : Bytes) (now : ℕ) (parts : List Bytes) (claims : Claims)
      → verify_parts lib secret now parts ≡ ok claims
      → (payload signature bytes : Bytes) × (parts ≡ payload ∷ signature ∷ [])
        × (decode signature ≡ some (mac secret payload))
        × (decode payload ≡ some bytes)
        × (unmarshal bytes ≡ some claims)
        × InTime now claims
  unfolding verify_parts decode_or guard claims_or
  parts_sound secret now [] claims h = absurd (refused h)
  parts_sound secret now (p ∷ []) claims h = absurd (refused h)
  parts_sound secret now (p ∷ s ∷ []) claims h = elim (Option-cases (decode s)) [
    | inl e ↦ absurd (refused (rw e at h))
    | inr (signature, e) ↦ elim (Bool-cases (codes_eq signature (mac secret p))) [
      | inr other ↦ absurd (refused (rw (e, other) at h))
      | inl match ↦ elim (Option-cases (decode p)) [
        | inl n ↦ absurd (refused (rw (e, match, n) at h))
        | inr (bytes, n) ↦ elim (Option-cases (unmarshal bytes)) [
          | inl m ↦ absurd (refused (rw (e, match, n, m) at h))
          | inr (read, m) ↦
              let k : check_claims lib now read ≡ ok claims = rw (e, match, n, m) at h in
              let (eq, time) = checked_lem now read claims (unmarshal-IsInt64 bytes read m).1 k in
              let time' : InTime now claims = subst (InTime now) eq time in
              (p, s, bytes, refl, e ∙ ap some (codes_eq→eq _ _ match), n, m ∙ ap some eq, time')
        ]
      ]
    ]
  ]
  parts_sound secret now (p ∷ s ∷ q ∷ rest) claims h = absurd (refused h)

  -- A verified token has two parts, the second the signature of the first under the secret; the
  -- claims are those that the first holds as JSON; they were issued at most 30 seconds ahead, have
  -- not expired, and live at most 300 seconds, unless they were issued before the epoch and the int64
  -- of their lifetime wraps around.
  pub verify_sound :
      (secret token : Bytes) (now : ℕ) (claims : Claims)
      → verify lib secret token now ≡ ok claims
      → (payload signature bytes : Bytes) × (split token ≡ payload ∷ signature ∷ [])
        × (decode signature ≡ some (mac secret payload))
        × (decode payload ≡ some bytes)
        × (unmarshal bytes ≡ some claims)
        × InTime now claims
  unfolding verify
  verify_sound secret token now claims h = parts_sound secret now (split token) claims h

  -- A capability that `NewClaims` issues at `now` for 1 to 300 seconds, with an audience, a
  -- subject, a method, a path and an identifier, that JSON reads back and `Sign` accepts, verifies at
  -- every time from 30 seconds before `now` to the end of its lifetime, and is refused as expired after it.
  pub verify-sign-new_claims :
      (secret token : Bytes) (aud sub method path file id : String) (max_bytes : ℤ)
      (life now later : ℕ)
      → let claims = new_claims aud sub method path file max_bytes life now id in
        unmarshal (marshal claims) ≡ some claims
        → sign lib secret claims ≡ ok token
        → (aud == "") ≡ false
        → (sub == "") ≡ false
        → (method == "") ≡ false
        → (path == "") ≡ false
        → (id == "") ≡ false
        → 0 < life
        → life ≤ 300
        → now ≤ later + 30
        → verify lib secret token later
          ≡ (if leb later (now + life) then ok claims else err expired)
  verify-sign-new_claims secret token aud sub method path file id max_bytes life now later json h a
        s m p i above short since =
      verify-sign secret _ token later json h
      ∙ (let lifetime = sub64-add now life (omega arith) in
          unfold check_claims new_claims in ground (arith, lifetime))

-- `AuthorizePaths` accepts exactly the operation that the claims name: audience, method, path, file
-- path and target path are all equal to the requested ones.
pub authorize_paths_iff :
    (claims : Claims) (a m p f t : String)
    → (authorize_paths claims a m p f t ≡ none) ↔ (
        (claims.audience ≡ a)
        × (claims.method ≡ m)
        × (claims.path ≡ p)
        × (claims.file_path ≡ f)
        × (claims.target_path ≡ t))
unfolding authorize_paths
authorize_paths_iff claims a m p f t = ground (
  arith,
  eq_iff claims.audience a,
  eq_iff claims.method m,
  eq_iff claims.path p,
  eq_iff claims.file_path f,
  eq_iff claims.target_path t,
)
