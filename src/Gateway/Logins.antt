-- ===== src/Gateway/Logins.antt =====
-- `allowOfflineLogin`: how often an address may wake the server. A time is a number of
-- nanoseconds; the map of the latest attempts is the list of its entries.
use mathlib.Core.Path.{subst}
use hogs.Prelude.{
  ℕ, ◌+◌, ◌-◌, ◌*◌, ◌≤◌, ◌<◌, Bool, true, false, not, Option, none, some, List, [], ◌∷◌, String,
  ltb, keep, length, All, ◌==◌, eq_refl, eq_iff, if◌then◌else◌, ◌≡◌, refl, sym, ap, ◌∙◌, arith,
  Bool-cases, inl, inr,
}

abbrev pub Attempts : Type 0
Attempts = List (String × ℕ)

unfoldable pub lookup : String → Attempts → Option ℕ
lookup host [] = none
lookup host ((key, seen) ∷ rest) =
    let later = lookup host rest in if host == key then some seen else later

-- g.loginAttempts[host] = now
unfoldable pub store : String → ℕ → Attempts → Attempts
store host now [] = (host, now) ∷ []
store host now ((key, seen) ∷ rest) =
    let later = store host now rest in
    if host == key then (key, now) ∷ rest else (key, seen) ∷ later

-- An entry that the cleanup leaves: it is not before the cutoff, two rate limits ago.
unfoldable pub is_recent : ℕ → ℕ → String × ℕ → Bool
is_recent limit now (key, seen) = not (ltb (seen + 2 * limit) now)

unfoldable pub record_login : ℕ → String → ℕ → Attempts → Attempts
unfolding store is_recent
record_login limit host now attempts =
    let stored = store host now attempts in
    if ltb 1024 (length stored) then keep (is_recent limit now) stored else stored

unfoldable pub is_early : ℕ → ℕ → Option ℕ → Bool
is_early limit now none = false
is_early limit now (some previous) = ltb (now - previous) limit

-- `allowOfflineLogin`: the attempts, and whether the login is allowed.
unfoldable pub allow_offline_login : ℕ → Attempts → String → ℕ → Attempts × Bool
unfolding lookup record_login is_early
allow_offline_login limit attempts host now =
    if is_early limit now (lookup host attempts)
    then (attempts, false)
    else (record_login limit host now attempts, true)

-- Logins in order, each an address and a time.
unfoldable pub logins : ℕ → List (String × ℕ) → Attempts → Attempts
unfolding allow_offline_login
logins limit [] attempts = attempts
logins limit ((host, now) ∷ rest) attempts =
    logins limit rest (allow_offline_login limit attempts host now).0

lookup-store :
    (host : String) (now : ℕ) (xs : Attempts) → lookup host (store host now xs) ≡ some now
unfolding lookup store
lookup-store host now [] = rw (eq_refl host) refl
lookup-store host now ((key, seen) ∷ xs) = elim (Bool-cases (host == key)) [
  | inl e ↦ rw (e, e) refl
  | inr e ↦ rw (e, e) (lookup-store host now xs)
]

lookup-store_other :
    (host other : String) (now : ℕ) (xs : Attempts)
    → (host == other) ≡ false
    → lookup host (store other now xs) ≡ lookup host xs
unfolding lookup store
lookup-store_other host other now [] h = rw h refl
lookup-store_other host other now ((key, seen) ∷ xs) h = elim (Bool-cases (other == key)) [
  | inl o ↦
      let same : other ≡ key = (eq_iff other key).0 o in
      let apart : (host == key) ≡ false = subst (λ (k : String). (host == k) ≡ false) same h in
      rw (o, apart) refl
  | inr o ↦ elim (Bool-cases (host == key)) [
    | inl e ↦ rw (o, e) refl
    | inr e ↦ rw (o, e) (lookup-store_other host other now xs h)
  ]
]

lookup_here :
    (host key : String) (seen : ℕ) (xs : Attempts)
    → (host == key) ≡ true
    → lookup host ((key, seen) ∷ xs) ≡ some seen
unfolding lookup
lookup_here host key seen xs h = rw h refl

lookup_later :
    (host key : String) (seen : ℕ) (xs : Attempts)
    → (host == key) ≡ false
    → lookup host ((key, seen) ∷ xs) ≡ lookup host xs
unfolding lookup
lookup_later host key seen xs h = rw h refl

some_time : (a b : ℕ) → some a ≡ some b → a ≡ b
some_time a b h = cc

lookup-keep :
    (p : String × ℕ → Bool) (q : ℕ → Bool) (host : String) (t : ℕ) (xs : Attempts)
    → ((key : String) (seen : ℕ) → p (key, seen) ≡ q seen)
    → q t ≡ true
    → lookup host xs ≡ some t
    → lookup host (keep p xs) ≡ some t
unfolding lookup
lookup-keep p q host t [] e k h = h
lookup-keep p q host t ((key, seen) ∷ xs) e k h = elim (Bool-cases (host == key)) [
  | inl m ↦
      let same : seen ≡ t = some_time seen t (sym (lookup_here host key seen xs m) ∙ h) in
      let kept : p (key, seen) ≡ true = e key seen ∙ ap q same ∙ k in
      rw (kept, m) (ap (λ (n : ℕ). some n) same)
  | inr m ↦
      let r = lookup-keep p q host t xs e k (sym (lookup_later host key seen xs m) ∙ h) in
      elim (Bool-cases (p (key, seen))) [ inl b ↦ rw (b, m) r | inr b ↦ rw b r ]
]

-- The attempt of an address is still there after another address is recorded, within two limits.
lookup-record_login :
    (limit : ℕ) (host other : String) (t now : ℕ) (xs : Attempts)
    → (host == other) ≡ false
    → now ≤ t + 2 * limit
    → lookup host xs ≡ some t
    → lookup host (record_login limit other now xs) ≡ some t
unfolding record_login is_recent
lookup-record_login limit host other t now xs h b e =
    let k = lookup-store_other host other now xs h ∙ e in
    elim (Bool-cases (ltb 1024 (length (store other now xs)))) [
      | inl big ↦ rw big (
          lookup-keep (is_recent limit now) (λ seen. not (ltb (seen + 2 * limit) now)) host t
            (store other now xs) (λ key seen. refl) (ground arith) k)
      | inr small ↦ rw small k
    ]

recorded_login :
    (limit : ℕ) (host : String) (now : ℕ) (xs : Attempts)
    → lookup host (record_login limit host now xs) ≡ some now
unfolding record_login is_recent
recorded_login limit host now xs =
    let k = lookup-store host now xs in
    elim (Bool-cases (ltb 1024 (length (store host now xs)))) [
      | inl big ↦ rw big (
          lookup-keep (is_recent limit now) (λ seen. not (ltb (seen + 2 * limit) now)) host now
            (store host now xs) (λ key seen. refl) (ground arith) k)
      | inr small ↦ rw small k
    ]

not_both : (b : Bool) → b ≡ true → b ≡ false → ⊥
not_both b h k = cc

early_within :
    (limit t now : ℕ) (xs : Attempts) (host : String)
    → t ≤ now
    → now < t + limit
    → lookup host xs ≡ some t
    → is_early limit now (lookup host xs) ≡ true
unfolding is_early
early_within limit t now xs host a b e = rw e (ground (arith, a, b))

-- One login, of whatever address, within the limit of an attempt.
lookup-allow_offline_login :
    (limit : ℕ) (host other : String) (t now : ℕ) (xs : Attempts)
    → t ≤ now
    → now < t + limit
    → lookup host xs ≡ some t
    → lookup host (allow_offline_login limit xs other now).0 ≡ some t
unfolding allow_offline_login is_early
lookup-allow_offline_login limit host other t now xs a b e =
    elim (Bool-cases (is_early limit now (lookup other xs))) [
      | inl early ↦ rw early e
      | inr late ↦ elim (Bool-cases (host == other)) [
        | inl m ↦
            let same : host ≡ other = (eq_iff host other).0 m in
            let there : lookup other xs ≡ some t =
              subst (λ (o : String). lookup o xs ≡ some t) same e in
            absurd (not_both _ (early_within limit t now xs other a b there) late)
        | inr m ↦ rw late (lookup-record_login limit host other t now xs m (omega arith) e)
      ]
    ]

unfoldable pub Within : ℕ → ℕ → List (String × ℕ) → Type 0
Within limit t = All (λ login. (t ≤ login.1) × (login.1 < t + limit))

lookup-logins :
    (limit : ℕ) (host : String) (t : ℕ) (ls : List (String × ℕ)) (xs : Attempts)
    → Within limit t ls
    → lookup host xs ≡ some t
    → lookup host (logins limit ls xs) ≡ some t
unfolding logins Within
lookup-logins limit host t [] xs w e = e
lookup-logins limit host t ((other, now) ∷ ls) xs ((a, b), w) e =
    lookup-logins limit host t ls (allow_offline_login limit xs other now).0 w
      (lookup-allow_offline_login limit host other t now xs a b e)

allowed_lookup :
    (limit : ℕ) (host : String) (t : ℕ) (xs : Attempts)
    → (allow_offline_login limit xs host t).1 ≡ true
    → lookup host (allow_offline_login limit xs host t).0 ≡ some t
unfolding allow_offline_login
allowed_lookup limit host t xs h = elim (Bool-cases (is_early limit t (lookup host xs))) [
  | inl early ↦ absurd (not_both _ h (rw early refl))
  | inr late ↦ rw late (recorded_login limit host t xs)
]

-- After a login of an address that was allowed at t, every login of that address before t plus the
-- rate limit is refused, whatever logins of any addresses lie between, however many addresses the
-- gateway remembers and whichever it forgets.
pub allow_offline_login_again :
    (limit : ℕ) (host : String) (t now : ℕ) (ls : List (String × ℕ)) (xs : Attempts)
    → (allow_offline_login limit xs host t).1 ≡ true
    → Within limit t ls
    → t ≤ now
    → now < t + limit
    → (allow_offline_login limit
        (logins limit ls (allow_offline_login limit xs host t).0)
        host
        now).1
      ≡ false
unfolding allow_offline_login
allow_offline_login_again limit host t now ls xs h w a b =
    let before = allowed_lookup limit host t xs h in
    let ys = logins limit ls (allow_offline_login limit xs host t).0 in
    let there : lookup host ys ≡ some t =
      lookup-logins limit host t ls (allow_offline_login limit xs host t).0 w before in
    refused ys (early_within limit t now ys host a b there)
  where
    refused :
        (ys : Attempts)
        → is_early limit now (lookup host ys) ≡ true
        → (allow_offline_login limit ys host now).1 ≡ false
    refused ys e = rw e refl
