-- ===== src/Keys/Rows.antt =====
-- The table of keys over any operations.
use hogs.Prelude.{
  contradicts, ℕ, String, Bool, false, Option, none, some, List, [], ◌∷◌, ◌++◌, All, keep, map, eqb,
  if◌then◌else◌, ◌≡◌, refl, sym, ap, ◌∙◌, arith, Bool-cases, inl, inr,
}
use hogs.Prelude.Text.{codes_eq, codes_eq_refl, codes_eq→eq}
use hogs.Keys.{
  Bytes, Key, Table, get_by_hash, create, inserted, without_name, replace_by_name, delete, touch,
  update_last_used,
}

not_none : (k : Key) → ◌≡◌ {A = Option Key} (some k) none → ⊥
not_none k h = cc

pub get_by_hash-append :
    (h : Bytes) (rows : List Key) (k : Key)
    → get_by_hash h rows ≡ none
    → get_by_hash h (rows ++ k ∷ []) ≡ (if codes_eq k.key_hash h then some k else none)
unfolding get_by_hash
get_by_hash-append h [] k n = refl
get_by_hash-append h (r ∷ rows) k n = elim (Bool-cases (codes_eq r.key_hash h)) [
  | inl e ↦ absurd (not_none r (rw e at n))
  | inr e ↦ rw e (get_by_hash-append h rows k (rw e at n))
]

apart : (a b : Bytes) → codes_eq a b ≡ false → codes_eq b a ≡ false
apart a b n = elim (Bool-cases (codes_eq b a)) [
  | inl e ↦
      absurd (contradicts (sym (codes_eq_refl a) ∙ ap (codes_eq a) (sym (codes_eq→eq b a e)) ∙ n))
  | inr e ↦ e
]

-- The key in front has another hash than one that is not found.
front_apart :
    (h : Bytes) (k : Key) (rows : List Key)
    → get_by_hash h (k ∷ rows) ≡ none
    → codes_eq k.key_hash h ≡ false
unfolding get_by_hash
front_apart h k rows n = elim (Bool-cases (codes_eq k.key_hash h)) [
  | inl e ↦ absurd (not_none k (rw e at n))
  | inr e ↦ e
]

touch_hash : (id : ℕ) (now : String) (k : Key) → (touch id now k).key_hash ≡ k.key_hash
unfolding touch
touch_hash id now k = elim (Bool-cases (eqb k.id id)) [ inl e ↦ rw e refl | inr e ↦ rw e refl ]

pub data Operation : Type 0 where
  create_key replace_key : Key → Operation
  delete_key : ℕ → Operation
  use_key : ℕ → String → Operation

-- A write that is refused leaves the table.
abbrev pub stored_or : Table → Option Table → Table
stored_or t none = t
stored_or t (some new) = new

unfoldable pub step : Operation → Table → Table
unfolding create replace_by_name delete update_last_used
step (Operation.create_key key) t = stored_or t (create key t)
step (Operation.replace_key key) t = stored_or t (replace_by_name key t)
step (Operation.delete_key id) t = delete id t
step (Operation.use_key id now) t = update_last_used id now t

unfoldable pub run : List Operation → Table → Table
unfolding step
run [] t = t
run (o ∷ os) t = run os (step o t)

-- No hash is in two rows.
unfoldable pub IsUnique : List Key → Type 0
IsUnique [] = Unit
IsUnique (k ∷ rows) = (get_by_hash k.key_hash rows ≡ none) × IsUnique rows

none-keep :
    (h : Bytes) (p : Key → Bool) (rows : List Key)
    → get_by_hash h rows ≡ none
    → get_by_hash h (keep p rows) ≡ none
unfolding get_by_hash
none-keep h p [] n = refl
none-keep h p (k ∷ rows) n = ground (arith, none-keep h p rows)

keep-IsUnique : (p : Key → Bool) (rows : List Key) → IsUnique rows → IsUnique (keep p rows)
unfolding IsUnique
keep-IsUnique p [] u = tt
keep-IsUnique p (k ∷ rows) (n, u) = elim (Bool-cases (p k)) [
  | inl e ↦ rw e (none-keep k.key_hash p rows n, keep-IsUnique p rows u)
  | inr e ↦ rw e (keep-IsUnique p rows u)
]

none-touch :
    (h : Bytes) (id : ℕ) (now : String) (rows : List Key)
    → get_by_hash h rows ≡ none
    → get_by_hash h (map (touch id now) rows) ≡ none
unfolding get_by_hash
none-touch h id now [] n = refl
none-touch h id now (k ∷ rows) n =
    let a = front_apart h k rows n in
    let same = touch_hash id now k in rw (same, a) (none-touch h id now rows (rw a at n))

touch-IsUnique :
    (id : ℕ) (now : String) (rows : List Key) → IsUnique rows → IsUnique (map (touch id now) rows)
unfolding IsUnique touch
touch-IsUnique id now [] u = tt
touch-IsUnique id now (k ∷ rows) (n, u) = elim (Bool-cases (eqb k.id id)) [
  | inl e ↦ rw e (none-touch k.key_hash id now rows n, touch-IsUnique id now rows u)
  | inr e ↦ rw e (none-touch k.key_hash id now rows n, touch-IsUnique id now rows u)
]

append-IsUnique :
    (rows : List Key) (k : Key)
    → get_by_hash k.key_hash rows ≡ none
    → IsUnique rows
    → IsUnique (rows ++ k ∷ [])
unfolding IsUnique get_by_hash
append-IsUnique [] k n u = (refl, tt)
append-IsUnique (r ∷ rows) k n (m, u) =
    let a = front_apart k.key_hash r rows n in
    let b = apart r.key_hash k.key_hash a in
    (get_by_hash-append r.key_hash rows k m ∙ rw b refl, append-IsUnique rows k (rw a at n) u)

inserted-IsUnique :
    (key : Key) (t kept : Table) (found : Option Key)
    → get_by_hash key.key_hash kept.rows ≡ found
    → IsUnique t.rows
    → IsUnique kept.rows
    → IsUnique (stored_or t (inserted key kept found)).rows
unfolding inserted
inserted-IsUnique key t kept (some k) e u v = u
inserted-IsUnique key t kept none e u v =
    append-IsUnique kept.rows (record key { id = kept.next_id }) e v

step-IsUnique : (o : Operation) (t : Table) → IsUnique t.rows → IsUnique (step o t).rows
unfolding step create replace_by_name without_name delete update_last_used
step-IsUnique (Operation.create_key key) t u =
    inserted-IsUnique key t t (get_by_hash key.key_hash t.rows) refl u u
step-IsUnique (Operation.replace_key key) t u =
    let kept : Table = record t { rows = without_name key.name t.rows } in
    inserted-IsUnique key t kept (get_by_hash key.key_hash kept.rows) refl u
      (keep-IsUnique _ t.rows u)
step-IsUnique (Operation.delete_key id) t u = keep-IsUnique _ t.rows u
step-IsUnique (Operation.use_key id now) t u = touch-IsUnique id now t.rows u

run-IsUnique : (os : List Operation) (t : Table) → IsUnique t.rows → IsUnique (run os t).rows
unfolding run
run-IsUnique [] t u = u
run-IsUnique (o ∷ os) t u = run-IsUnique os (step o t) (step-IsUnique o t u)

behind_one :
    (k : Key) (rows : List Key) (r : Key)
    → get_by_hash k.key_hash rows ≡ none
    → get_by_hash r.key_hash rows ≡ some r
    → codes_eq k.key_hash r.key_hash ≡ false
behind_one k rows r n a = elim (Bool-cases (codes_eq k.key_hash r.key_hash)) [
  | inl e ↦
      let same = ap (λ (h : Bytes). get_by_hash h rows) (codes_eq→eq k.key_hash r.key_hash e) in
      absurd (not_none r (sym a ∙ sym same ∙ n))
  | inr e ↦ e
]

behind :
    (k : Key) (rows found : List Key)
    → get_by_hash k.key_hash rows ≡ none
    → All (λ r. get_by_hash r.key_hash rows ≡ some r) found
    → All (λ r. get_by_hash r.key_hash (k ∷ rows) ≡ some r) found
unfolding get_by_hash
behind k rows [] n a = tt
behind k rows (r ∷ found) n (a, all) =
    (ground (arith, behind_one k rows r n a), behind k rows found n all)

each_found :
    (rows : List Key) → IsUnique rows → All (λ k. get_by_hash k.key_hash rows ≡ some k) rows
unfolding IsUnique get_by_hash
each_found [] u = tt
each_found (k ∷ rows) (n, u) =
    (rw (codes_eq_refl k.key_hash) refl, behind k rows rows n (each_found rows u))

-- From an empty table on, whatever keys are created, replaced, deleted and used, each key of the
-- table is the one that its hash finds.
pub run-found :
    (os : List Operation) (first : ℕ)
    → All
        (λ k. get_by_hash k.key_hash (run os (record { rows = []; next_id = first })).rows ≡ some k)
        (run os (record { rows = []; next_id = first })).rows
unfolding IsUnique
run-found os first = each_found _ (run-IsUnique os (record { rows = []; next_id = first }) tt)
