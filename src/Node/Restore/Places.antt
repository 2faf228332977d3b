-- ===== src/Node/Restore/Places.antt =====
-- Where directories are while a restore runs, entry by entry beside the data directory, and what each
-- operation leaves in place.
use hogs.Prelude.{
  ℕ, String, true, false, Option, none, some, List, [], ◌∷◌, ◌++◌, ◌==◌, All, ◌≡◌, inl, inr, refl,
  sym, ap, ◌∙◌, eq_iff, eq_refl, contradicts, Bool-cases,
}
use mathlib.Core.List.{append_assoc}
use hogs.Node.Paths.{FilePath, clean, join, dir, base, child}
use hogs.Node.Paths.Parts.{
  IsName, Outside, clean-names, clean_names_lem, names-append, strip_prefix_apart,
}
use hogs.Node.Host.{Server}
use hogs.Node.Restore.{is_safe}
use hogs.Node.Restore.Tree.{live, entry, IsBeside, Same, SameOutside, is_safe_lem}

pub apart_sym : (x y : String) → (x == y) ≡ false → (y == x) ≡ false
apart_sym x y h = elim (Bool-cases (y == x)) [
  | inl g ↦ absurd (contradicts (sym (eq_refl x) ∙ ap (λ z. x == z) (sym ((eq_iff y x).0 g)) ∙ h))
  | inr g ↦ g
]

module _ (server : Server) (safe : is_safe (live server) ≡ true) where
  -- A path at an entry of the directory that the data directory is in, or below one.
  abbrev pub IsAt : FilePath → String → Type 0
  IsAt q name = (rest : List String) × (q.parts ≡ (dir (live server)).parts ++ name ∷ rest)

  pub outside_lem :
      (q p : FilePath) (m n : String) → IsAt q m → IsAt p n → (n == m) ≡ false → Outside q p
  outside_lem q p m n (rest, e) (more, f) g =
      rw (e, f) (strip_prefix_apart (dir (live server)).parts n m more rest g)

  pub live-IsAt : IsAt (live server) (base (live server))
  live-IsAt = ([], sym (is_safe_lem (live server) safe).1)

  pub entry-IsAt : (name : String) → IsAt (entry server name) name
  unfolding child dir
  entry-IsAt name = ([], refl)

  without_last-names :
      (name : String) (parts whole : List String)
      → parts ++ name ∷ [] ≡ whole
      → All IsName whole
      → All IsName parts
  without_last-names name parts whole e h = go parts (rw e h)
    where
      go : (parts : List String) → All IsName (parts ++ name ∷ []) → All IsName parts
      go [] k = tt
      go (part ∷ parts) k = (k.0, go parts k.1)

  -- The restored data below its staging directory.
  pub staged_parts :
      (name : String)
      → IsName name
      → (join (entry server name) (live server)).parts
        ≡ (dir (live server)).parts ++ name ∷ (live server).parts
  unfolding join clean child dir
  staged_parts name k =
      clean_names_lem _ _ names
      ∙ append_assoc (dir (live server)).parts (name ∷ []) (live server).parts
    where
      below : All IsName (live server).parts
      below = clean-names server.data_dir (is_safe_lem (live server) safe).0

      names : All IsName (((dir (live server)).parts ++ name ∷ []) ++ (live server).parts)
      names =
          names-append _ _
            (names-append _ _ (without_last-names _ _ _ (is_safe_lem (live server) safe).1 below)
              (k, tt))
            below

  pub staged-IsAt :
      (name : String) → IsName name → IsAt (join (entry server name) (live server)) name
  staged-IsAt name k = ((live server).parts, staged_parts name k)

  -- One directory, at one of those paths.
  pub record Fact : Type 0 where
    pub place : FilePath
    pub name : String
    pub at : IsAt place name
    pub beside : IsBeside server place
    pub held : ℕ

  abbrev pub at_live : ℕ → Fact
  at_live d = record {
    place = live server;
    name = base (live server);
    at = live-IsAt;
    beside = inl refl;
    held = d;
  }

  -- Is it another name than that of the data directory?
  abbrev pub IsOther : String → Type 0
  IsOther name = (base (live server) == name) ≡ false

  abbrev pub at_entry : (name : String) → IsOther name → ℕ → Fact
  at_entry name other d = record {
    place = entry server name;
    name = name;
    at = entry-IsAt name;
    beside =
        inr (outside_lem (entry server name) (live server) _ _ (entry-IsAt name) live-IsAt other);
    held = d;
  }

  abbrev pub at_staged : (name : String) → IsName name → IsOther name → ℕ → Fact
  at_staged name k other d = record {
    place = join (entry server name) (live server);
    name = name;
    at = staged-IsAt name k;
    beside = inr (
        outside_lem (join (entry server name) (live server)) (live server) _ _ (staged-IsAt name k)
          live-IsAt other);
    held = d;
  }

  module _ {W : Type 0} (dir_at : W → FilePath → Option ℕ) where
    abbrev pub Holds : List Fact → W → Type 0
    Holds facts w = All (λ f. dir_at w f.place ≡ some f.held) facts

    abbrev pub AreApart : String → List Fact → Type 0
    AreApart name facts = All (λ f. (name == f.name) ≡ false) facts

    pub Same-Holds :
        (facts : List Fact) (w v : W) → Same server dir_at w v → Holds facts w → Holds facts v
    Same-Holds [] w v same h = tt
    Same-Holds (f ∷ facts) w v same h = (same f.place f.beside ∙ h.0, Same-Holds facts w v same h.1)

    pub outside-Holds :
        (facts : List Fact) (p : FilePath) (name : String) (w v : W)
        → IsAt p name
        → AreApart name facts
        → SameOutside server dir_at p w v
        → Holds facts w
        → Holds facts v
    outside-Holds [] p name w v k apart same h = tt
    outside-Holds (f ∷ facts) p name w v k apart same h = (
      same f.place f.beside (outside_lem f.place p _ _ f.at k apart.0) ∙ h.0,
      outside-Holds facts p name w v k apart.1 same h.1,
    )

    pub renamed-Holds :
        (facts : List Fact) (p q : FilePath) (from into : String) (w v : W)
        → IsAt p from
        → IsAt q into
        → AreApart from facts
        → AreApart into facts
        → ((o : FilePath) → IsBeside server o → Outside o p → Outside o q → dir_at v o ≡ dir_at w o)
        → Holds facts w
        → Holds facts v
    renamed-Holds [] p q from into w v k l apart free same h = tt
    renamed-Holds (f ∷ facts) p q from into w v k l apart free same h = (
      same f.place f.beside (outside_lem f.place p _ _ f.at k apart.0)
            (outside_lem f.place q _ _ f.at l free.0)
          ∙ h.0,
      renamed-Holds facts p q from into w v k l apart.1 free.1 same h.1,
    )

    -- A name that nothing had is not one that something has.
    pub fresh_lem :
        (w : W) (name : String) (f : Fact)
        → (f.place ≡ entry server f.name)
        → dir_at w (entry server name) ≡ none
        → dir_at w f.place ≡ some f.held
        → (name == f.name) ≡ false
    fresh_lem w name f e a b = elim (Bool-cases (name == f.name)) [
      | inl g ↦ absurd (cc (a, b, e, (eq_iff name f.name).0 g))
      | inr g ↦ g
    ]

    pub entry-live : entry server (base (live server)) ≡ live server
    unfolding child dir
    entry-live =
        ap (λ parts. record (live server) { parts = parts }) (is_safe_lem (live server) safe).1
