-- ===== src/Keys/Rotation.antt =====
-- The keys of the table after the key of the deployment is installed.
use mathlib.Core.Path.{subst}
use hogs.Prelude.{
  String, Bool, true, false, not, ◌&&◌, ◌||◌, Option, none, some, List, [], ◌∷◌, ◌==◌, ◌++◌, leb,
  length, ◌≡◌, refl, sym, ap, ◌∙◌, arith, Bool-cases, Option-cases, inl, inr,
}
use hogs.Prelude.Text.{codes_eq, codes_eq_refl}
use hogs.Prelude.Fallible.{Result, ok, err}
use hogs.Keys.{
  Bytes, Key, Table, Clock, Answer, strip, api_key_prefix, bearer, is_expired, get_by_hash, create,
  without_name, replace_by_name, bootstrap_key, is_installed, is_credential, inserted, rotated,
  bootstrap, serve,
}
use hogs.Keys.Rows.{get_by_hash-append}
use hogs.Keys.Passed.{key_or, strip-some, serve-passes}

and_false : (b : Bool) → (b && false) ≡ true → ⊥
and_false true h = cc
and_false false h = cc

not_failed : ◌≡◌ {A = Result (Unit {0}) Bool} (err tt) (ok true) → ⊥
not_failed h = cc

not_unchanged : ◌≡◌ {A = Result (Unit {0}) Bool} (ok false) (ok true) → ⊥
not_unchanged h = cc

not_table : (t : Table) → ◌≡◌ {A = Option Table} none (some t) → ⊥
not_table t h = cc

abbrev table_or : Table → Option Table → Table
table_or other none = other
table_or other (some t) = t

get_by_hash-prepend :
    (h : Bytes) (rows : List Key) (k : Key)
    → codes_eq k.key_hash h ≡ false
    → get_by_hash h (rows ++ k ∷ []) ≡ get_by_hash h rows
unfolding get_by_hash
get_by_hash-prepend h [] k n = rw n refl
get_by_hash-prepend h (r ∷ rows) k n = ground (arith, get_by_hash-prepend h rows k n)

get_by_hash-without_name :
    (h : Bytes) (name : String) (rows : List Key) (k : Key)
    → get_by_hash h (without_name name rows) ≡ some k
    → (k.name == name) ≡ false
unfolding get_by_hash without_name
get_by_hash-without_name h name [] k e = absurd (cc)
get_by_hash-without_name h name (r ∷ rows) k e = elim (Bool-cases (r.name == name)) [
  | inl n ↦ get_by_hash-without_name h name rows k (rw n at e)
  | inr n ↦ elim (Bool-cases (codes_eq r.key_hash h)) [
    | inl f ↦
        let same : r ≡ k = ap (key_or r) (rw (n, f) at e) in
        subst (λ (x : Key). (x.name == name) ≡ false) same n
    | inr f ↦ get_by_hash-without_name h name rows k (rw (n, f) at e)
  ]
]

get_by_hash-other_name :
    (h : Bytes) (name : String) (rows : List Key) (k : Key)
    → get_by_hash h rows ≡ some k
    → (k.name == name) ≡ false
    → get_by_hash h (without_name name rows) ≡ some k
unfolding get_by_hash without_name
get_by_hash-other_name h name [] k e n = absurd (cc)
get_by_hash-other_name h name (r ∷ rows) k e n = elim (Bool-cases (codes_eq r.key_hash h)) [
  | inl f ↦
      let same : r ≡ k = ap (key_or r) (rw f at e) in
      let m : (r.name == name) ≡ false =
        subst (λ (x : Key). (x.name == name) ≡ false) (sym same) n in
      rw (m, f) (ap (λ (x : Key). some x) same)
  | inr f ↦
      let ih = get_by_hash-other_name h name rows k (rw f at e) n in
      elim (Bool-cases (r.name == name)) [ inl m ↦ rw m ih | inr m ↦ rw (m, f) ih ]
]

-- The table after a key takes the place of those of its name.
pub record Replaced (key : Key) (t new : Table) : Type 0 where
  pub found : get_by_hash key.key_hash new.rows ≡ some (record key { id = t.next_id })
  pub revoked :
      (h : Bytes) (k : Key)
      → codes_eq key.key_hash h ≡ false
      → get_by_hash h new.rows ≡ some k
      → (k.name == key.name) ≡ false
  pub untouched :
      (h : Bytes) (k : Key)
      → codes_eq key.key_hash h ≡ false
      → get_by_hash h t.rows ≡ some k
      → (k.name == key.name) ≡ false
      → get_by_hash h new.rows ≡ some k

inserted_lem :
    (key : Key) (t new : Table) (found : Option Key)
    → get_by_hash key.key_hash (without_name key.name t.rows) ≡ found
    → inserted key (record t { rows = without_name key.name t.rows }) found ≡ some new
    → Replaced key t new
unfolding inserted
inserted_lem key t new (some k) e h = absurd (cc)
inserted_lem key t new none e h =
    let rows = without_name key.name t.rows in
    let stored : Key = record key { id = t.next_id } in
    subst (Replaced key t) (ap (table_or t) h) (record {
      found = get_by_hash-append key.key_hash rows stored e ∙ rw (codes_eq_refl key.key_hash) refl;
      revoked = λ g k n f.
          get_by_hash-without_name g key.name t.rows k
            (sym (get_by_hash-prepend g rows stored n) ∙ f);
      untouched = λ g k n f m.
          get_by_hash-prepend g rows stored n ∙ get_by_hash-other_name g key.name t.rows k f m;
    })

replace_by_name_lem :
    (key : Key) (t new : Table) → replace_by_name key t ≡ some new → Replaced key t new
unfolding replace_by_name create
replace_by_name_lem key t new h =
    inserted_lem key t new (get_by_hash key.key_hash (without_name key.name t.rows)) refl h

module _ (hash : Bytes → Bytes) (c : Clock) where
  rotated_lem :
      (key : Key) (t : Table) (o : Option Table)
      → replace_by_name key t ≡ o
      → (rotated hash c o t).0 ≡ ok true
      → Replaced key t (rotated hash c o t).1
  unfolding rotated
  rotated_lem key t none e h = absurd (cc)
  rotated_lem key t (some new) e h = replace_by_name_lem key t new e

  is_credential_lem :
      (name : String) (plain : Bytes)
      → is_credential hash c name plain ≡ true
      → (rest : Bytes) × (plain ≡ api_key_prefix ++ rest)
  unfolding is_credential
  is_credential_lem name plain h = elim (Option-cases (strip api_key_prefix plain)) [
    | inl e ↦ absurd (and_false (not (name == "") && leb 8 (length plain)) (rw e at h))
    | inr (rest, e) ↦ (rest, strip-some api_key_prefix plain rest e)
  ]

  installed_serve :
      (name : String) (plain : Bytes) (t new : Table)
      → is_credential hash c name plain ≡ true
      → get_by_hash (hash plain) new.rows
        ≡ some (record (bootstrap_key hash c name plain) { id = t.next_id })
      → (serve hash c ("admin" ∷ []) true (bearer ++ plain) new).0
        ≡ Answer.passed (record (bootstrap_key hash c name plain) { id = t.next_id })
  unfolding is_expired bootstrap_key
  installed_serve name plain t new h g =
      let k : Key = record (bootstrap_key hash c name plain) { id = t.next_id } in
      let (rest, e) = is_credential_lem name plain h in
      subst
        (λ (p : Bytes). (serve hash c ("admin" ∷ []) true (bearer ++ p) new).0 ≡ Answer.passed k)
        (sym e)
        (serve-passes hash c ("admin" ∷ []) rest new k
          (ap (λ (p : Bytes). get_by_hash (hash p) new.rows) (sym e) ∙ g) refl refl)

  -- A deployment's key that is installed or rotated: a request with it passes as an administrator
  -- under its name, the former keys of that name are not found any more, and those of other names
  -- are found as before.
  pub bootstrap-serve :
      (is_up : Bool) (name : String) (plain : Bytes) (t : Table)
      → (bootstrap hash c is_up name plain t).0 ≡ ok true
      → ((serve hash c
            ("admin" ∷ [])
            true
            (bearer ++ plain)
            (bootstrap hash c is_up name plain t).1).0
          ≡ Answer.passed (record (bootstrap_key hash c name plain) { id = t.next_id }))
        × Replaced (bootstrap_key hash c name plain) t (bootstrap hash c is_up name plain t).1
  unfolding bootstrap
  bootstrap-serve is_up name [] t h = absurd (cc)
  bootstrap-serve is_up name (b ∷ bytes) t h =
      let plain : Bytes = b ∷ bytes in
      let key = bootstrap_key hash c name plain in
      let new = replace_by_name key t in
      elim (Bool-cases (not (is_credential hash c name plain) || not is_up)) [
        | inl e ↦ absurd (not_failed (rw e at h))
        | inr e ↦ elim (Bool-cases (is_installed hash c name (get_by_hash (hash plain) t.rows))) [
          | inl f ↦ absurd (not_unchanged (rw (e, f) at h))
          | inr f ↦
              let r = rotated_lem key t new refl (rw (e, f) at h) in
              rw (e, f)
                (
                  installed_serve name plain t (rotated hash c new t).1 (ground (arith, e)) r.found,
                  r,
                )
        ]
      ]
