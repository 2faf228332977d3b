-- ===== src/Node/Paths/Parts.antt =====
-- Clean paths, their last part, and what lies outside of a directory.
use hogs.Prelude.{
  String, Bool, true, false, none, some, List, [], ◌∷◌, ◌++◌, ◌==◌, All, ◌≡◌, refl, sym, ap,
  eq_refl, Bool-cases, inl, inr, contradicts,
}
use hogs.Node.Paths.{
  FilePath, up, clean_step, reverse_onto, clean_parts, clean, without_last, last_part, strip_prefix,
}

-- The name of an entry of a directory.
abbrev pub IsName : String → Type 0
IsName part = ((part == "") ≡ false) × ((part == ".") ≡ false) × ((part == "..") ≡ false)

reverse_onto-names :
    (before parts : List String)
    → All IsName before
    → All IsName parts
    → All IsName (reverse_onto before parts)
unfolding reverse_onto
reverse_onto-names [] parts h k = k
reverse_onto-names (part ∷ before) parts h k = reverse_onto-names before (part ∷ parts) h.1 (h.0, k)

up-names : (before : List String) → All IsName before → All IsName (up true before)
unfolding up
up-names [] h = tt
up-names (part ∷ before) h = rw h.0.2 h.1

clean_step-names :
    (before : List String) (part : String)
    → All IsName before
    → All IsName (clean_step true before part)
unfolding clean_step
clean_step-names before part h = elim (Bool-cases (part == "")) [
  | inl e ↦ rw e h
  | inr e ↦ elim (Bool-cases (part == ".")) [
    | inl f ↦ rw (e, f) h
    | inr f ↦ elim (Bool-cases (part == "..")) [
      | inl g ↦ rw (e, f, g) (up-names before h)
      | inr g ↦ rw (e, f, g) ((e, f, g), h)
    ]
  ]
]

clean_parts-names :
    (before parts : List String) → All IsName before → All IsName (clean_parts true before parts)
unfolding clean_parts
clean_parts-names before [] h = reverse_onto-names before [] h tt
clean_parts-names before (part ∷ parts) h =
    clean_parts-names (clean_step true before part) parts (clean_step-names before part h)

-- An absolute path has no part like `..` after it was cleaned.
pub clean-names : (p : FilePath) → p.rooted ≡ true → All IsName (clean p).parts
unfolding clean
clean-names p e = go p.rooted p.parts e
  where
    go : (r : Bool) (parts : List String) → r ≡ true → All IsName (clean_parts r [] parts)
    go true parts e = clean_parts-names [] parts tt
    go false parts e = absurd (contradicts (sym e))

clean_parts_names_lem :
    (r : Bool) (before parts : List String)
    → All IsName parts
    → clean_parts r before parts ≡ reverse_onto before parts
unfolding clean_parts clean_step reverse_onto
clean_parts_names_lem r before [] h = refl
clean_parts_names_lem r before (part ∷ parts) h =
    rw (h.0.0, h.0.1, h.0.2) (clean_parts_names_lem r (part ∷ before) parts h.1)

-- Cleaning changes nothing where no part asks for it.
pub clean_names_lem :
    (r : Bool) (parts : List String) → All IsName parts → clean_parts r [] parts ≡ parts
unfolding reverse_onto
clean_names_lem r parts h = clean_parts_names_lem r [] parts h

pub names-append : (xs ys : List String) → All IsName xs → All IsName ys → All IsName (xs ++ ys)
names-append [] ys h k = k
names-append (x ∷ xs) ys h k = (h.0, names-append xs ys h.1 k)

-- A list of parts is its directory and its base.
pub without_last-last_part :
    (part : String) (parts : List String)
    → without_last (part ∷ parts) ++ last_part (part ∷ parts) ∷ [] ≡ part ∷ parts
unfolding without_last last_part
without_last-last_part part [] = refl
without_last-last_part part (next ∷ parts) =
    ap (λ rest. part ∷ rest) (without_last-last_part next parts)

-- `q` is neither `p` nor below it.
abbrev pub Outside : FilePath → FilePath → Type 0
Outside q p = strip_prefix p.parts q.parts ≡ none

pub strip_prefix_apart :
    (prefix : List String) (n m : String) (xs ys : List String)
    → (n == m) ≡ false
    → strip_prefix (prefix ++ n ∷ xs) (prefix ++ m ∷ ys) ≡ none
unfolding strip_prefix
strip_prefix_apart [] n m xs ys e = rw e refl
strip_prefix_apart (part ∷ prefix) n m xs ys e =
    rw (eq_refl part) (strip_prefix_apart prefix n m xs ys e)

pub strip_prefix_lem :
    (prefix rest : List String) → strip_prefix prefix (prefix ++ rest) ≡ some rest
unfolding strip_prefix
strip_prefix_lem [] rest = refl
strip_prefix_lem (part ∷ prefix) rest = rw (eq_refl part) (strip_prefix_lem prefix rest)
