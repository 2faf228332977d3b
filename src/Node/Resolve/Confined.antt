-- ===== src/Node/Resolve/Confined.antt =====
-- A resolved path stays in the data directory, and no part of it that exists is a symbolic link.
use hogs.Prelude.{
  String, Bool, true, false, Option, none, some, List, [], ◌∷◌, ◌++◌, ◌==◌, All, ◌≡◌, ◌≢◌, ◌⊎◌, inl,
  inr, refl, sym, ap, ◌∙◌, eq_iff, Bool-cases, if◌then◌else◌, same_bool,
}
use hogs.Prelude.Fallible.{Result, ok, err, ◌>>=◌}
use hogs.Node.Paths.{FilePath, clean, join, child, strip_prefix, below_base}
use hogs.Node.Paths.Parts.{IsName, clean-names}
use hogs.Node.Host.{Kind, symlink, Look, found, missing, unseen, Server}
use hogs.Node.Resolve.{after_look, scan_components, absolute_path, scan_below, resolve_path}

-- No component down to the last one, or to one that is missing, is a symbolic link.
abbrev pub IsPlain : (FilePath → Look) → FilePath → List String → Type 0
IsPlain look current [] = look current ≢ found symlink
IsPlain look current (name ∷ names) =
    (look current ≢ found symlink)
    × ((look current ≡ missing) ⊎ IsPlain look (child current name) names)

after_look_lem :
    (seen : Look) (deeper : Result String (Unit {0}))
    → after_look seen deeper ≡ ok tt
    → (seen ≢ found symlink) × ((seen ≡ missing) ⊎ (deeper ≡ ok tt))
unfolding after_look
after_look_lem (found symlink) deeper e = absurd (cc)
after_look_lem (found Kind.directory) deeper e = (λ q. cc, inr e)
after_look_lem (found Kind.regular) deeper e = (λ q. cc, inr e)
after_look_lem (found Kind.irregular) deeper e = (λ q. cc, inr e)
after_look_lem missing deeper e = (λ q. cc, inl refl)
after_look_lem (unseen x) deeper e = absurd (cc)

scan_components-IsPlain :
    (look : FilePath → Look) (current : FilePath) (names : List String)
    → scan_components look current names ≡ ok tt
    → IsPlain look current names
unfolding scan_components
scan_components-IsPlain look current [] e = (after_look_lem (look current) (ok tt) e).0
scan_components-IsPlain look current (name ∷ names) e =
    deeper (after_look_lem (look current) _ e)
      (scan_components-IsPlain look (child current name) names)
  where
    deeper :
        (look current ≢ found symlink)
          × ((look current ≡ missing) ⊎ (scan_components look (child current name) names ≡ ok tt))
        → (scan_components look (child current name) names ≡ ok tt
            → IsPlain look (child current name) names)
        → (look current ≢ found symlink)
          × ((look current ≡ missing) ⊎ IsPlain look (child current name) names)
    deeper (h, inl k) f = (h, inl k)
    deeper (h, inr k) f = (h, inr (f k))

strip_prefix_sound :
    (prefix parts rest : List String)
    → strip_prefix prefix parts ≡ some rest
    → parts ≡ prefix ++ rest
unfolding strip_prefix
strip_prefix_sound [] parts rest e = cc (e)
strip_prefix_sound (part ∷ prefix) [] rest e = absurd (cc)
strip_prefix_sound (part ∷ prefix) (next ∷ parts) rest e = elim (Bool-cases (part == next)) [
  | inl f ↦
      let tail = strip_prefix_sound prefix parts rest (rw f at e) in
      cc (tail, (eq_iff part next).0 f)
  | inr f ↦ absurd (none_some (rw f at e))
]
  where
    none_some : none ≡ some rest → ⊥
    none_some k = cc

found_below :
    (same : Bool) (rest : Option (List String)) (parts names : List String)
    → (if same
        then elim rest [
          | none ↦ none
          | some [] ↦ some []
          | some (part ∷ more) ↦ elim parts [ [] ↦ none | _ ∷ _ ↦ some (part ∷ more) ]
        ]
        else none)
      ≡ some names
    → rest ≡ some names
found_below true none parts names e = absurd (cc)
found_below true (some []) parts names e = e
found_below true (some (part ∷ more)) [] names e = absurd (cc)
found_below true (some (part ∷ more)) (_ ∷ _) names e = e
found_below false rest parts names e = absurd (cc)

below_base_sound :
    (p q : FilePath) (names : List String)
    → below_base p q ≡ some names
    → q.parts ≡ p.parts ++ names
unfolding below_base
below_base_sound p q names e =
    strip_prefix_sound p.parts q.parts names
      (found_below (same_bool p.rooted q.rooted) (strip_prefix p.parts q.parts) p.parts names e)

rest-names : (xs ys : List String) → All IsName (xs ++ ys) → All IsName ys
rest-names [] ys h = h
rest-names (x ∷ xs) ys h = rest-names xs ys h.1

names_if :
    (b : Bool) (p q : FilePath)
    → (b ≡ true → All IsName p.parts)
    → All IsName q.parts
    → All IsName (if b then p else q).parts
names_if true p q h k = h refl
names_if false p q h k = k

absolute_path-names :
    (server : Server) (p : FilePath)
    → server.data_dir.rooted ≡ true
    → All IsName (absolute_path server p).parts
unfolding absolute_path join
absolute_path-names server p e =
    names_if p.rooted (clean p) _ (λ f. clean-names p f)
      (clean-names (record server.data_dir { parts = server.data_dir.parts ++ p.parts }) e)

scan_below_sound :
    (look : FilePath → Look) (data_dir path : FilePath) (below : Option (List String))
    (result : FilePath)
    → scan_below look data_dir path below ≡ ok result
    → (names : List String) × (below ≡ some names)
      × (path ≡ result)
      × (scan_components look data_dir names ≡ ok tt)
unfolding scan_below
scan_below_sound look data_dir path none result e = absurd (cc)
scan_below_sound look data_dir path (some names) result e =
    ran (scan_components look data_dir names) refl e
  where
    ran :
        (r : Result String (Unit {0}))
        → scan_components look data_dir names ≡ r
        → (r >>= λ _. ok path) ≡ ok result
        → (found : List String) × (some names ≡ some found)
          × (path ≡ result)
          × (scan_components look data_dir found ≡ ok tt)
    ran (ok tt) f g = (names, refl, cc (g), f)
    ran (err x) f g = absurd (cc)

-- For a server whose data directory is an absolute path: a path that is resolved, whatever it was and whatever
-- the file system shows, is the data directory followed by names that are not empty, `.` or
-- `..`, and from the data directory down to it, or to the first component that is missing, no
-- component is a symbolic link.
pub resolve_path-confined :
    (look : FilePath → Look) (server : Server) (p path : FilePath)
    → server.data_dir.rooted ≡ true
    → resolve_path look server p ≡ ok path
    → (names : List String) × (path.parts ≡ (clean server.data_dir).parts ++ names)
      × All IsName names
      × IsPlain look (clean server.data_dir) names
unfolding resolve_path
resolve_path-confined look server p path e h =
    let (names, below, same, scanned) =
      scan_below_sound look (clean server.data_dir) (absolute_path server p) _ path h in
    let parts = below_base_sound (clean server.data_dir) (absolute_path server p) names below in
    (
      names,
      ap (λ (q : FilePath). q.parts) (sym same) ∙ parts,
      rest-names _ names (rw parts at (absolute_path-names server p e)),
      scan_components-IsPlain look (clean server.data_dir) names scanned,
    )
