-- ===== src/Node/Tests/Laws.antt =====
-- The small host keeps its directories as the proofs about a restore ask for.
use hogs.Prelude.{
  ℕ, zero, suc, String, Bool, true, Option, none, some, List, [], ◌∷◌, ◌==◌, ◌≡◌, ◌⊎◌, inl, inr,
  refl, sym, ap, ◌∙◌, eq_refl, Bool-cases,
}
use hogs.Node.Paths.{FilePath, child, dir, clean, join, strip_prefix, same_path}
use hogs.Node.Paths.Parts.{IsName, Outside}
use hogs.Node.Steps.{Ends}
use hogs.Node.Host.{found, directory}
use hogs.Node.Restore.{is_safe}
use hogs.Node.Restore.Tree.{live, entry, IsBeside, Same, IsNew, Tree}
use hogs.Node.Restore.Places.{staged_parts}
use hogs.Node.Tests.{
  World, server, host, look_of, without, with_at, rename_result, renamed, name_of, made, added,
  new_path,
}

abbrev pub dir_at : World → FilePath → Option ℕ
dir_at w p = w.files p.parts

abbrev pub HoldsSnapshot : String → ℕ → Type 0
HoldsSnapshot snapshot d = d ≡ 2

strip_self : (p : List String) → strip_prefix p p ≡ some []
unfolding strip_prefix
strip_self [] = refl
strip_self (part ∷ p) = rw (eq_refl part) (strip_self p)

with_at_self :
    (p : List String) (d : ℕ) (files : List String → Option ℕ) → with_at p d files p ≡ some d
with_at_self p d files = rw (strip_self p) refl

with_at_outside :
    (p q : List String) (d : ℕ) (files : List String → Option ℕ)
    → strip_prefix p q ≡ none
    → with_at p d files q ≡ files q
with_at_outside p q d files h = rw h refl

without_outside :
    (p q : List String) (files : List String → Option ℕ)
    → strip_prefix p q ≡ none
    → without p files q ≡ files q
without_outside p q files h = rw (h, without) refl

looks_lem : (o : Option ℕ) → look_of o ≡ found directory → (d : ℕ) × (o ≡ some d)
looks_lem (some d) e = (d, refl)
looks_lem none e = absurd (cc)

names_lem : (n : ℕ) → IsName (name_of n)
names_lem zero = (refl, refl, refl)
names_lem (suc zero) = (refl, refl, refl)
names_lem (suc (suc n)) = (refl, refl, refl)

renames_lem :
    (p q : FilePath) (w : World) (o : Option ℕ)
    → w.files p.parts ≡ o
    → Ends
        (λ _ v.
          (dir_at v q ≡ dir_at w p)
          × ((a : FilePath)
              → IsBeside server a
              → Outside a p
              → Outside a q
              → dir_at v a ≡ dir_at w a))
        (λ _. Same server dir_at w)
        (rename_result o, record w { files = renamed p.parts q.parts o w.files })
renames_lem p q w none e = record { so = λ a _. refl }
renames_lem p q w (some d) e = record {
  so = (
    with_at_self q.parts d (without p.parts w.files) ∙ sym e,
    λ a _ h k.
        with_at_outside q.parts a.parts d (without p.parts w.files) k
        ∙ without_outside p.parts a.parts w.files h,
  );
}

mkdir_temps_lem :
    (w : World) (o : Option ℕ)
    → w.files (new_path (dir (live server)) w).parts ≡ o
    → Ends
        (IsNew server dir_at w)
        (λ _. Same server dir_at w)
        (
          made (new_path (dir (live server)) w) o,
          record w {
            made = suc w.made;
            files = added (new_path (dir (live server)) w).parts o w.files;
          },
        )
mkdir_temps_lem w (some d) e = record { so = λ a _. refl }
mkdir_temps_lem w none e = record {
  so = (
    name_of w.made,
    refl,
    names_lem w.made,
    e,
    (9, with_at_self (new_path (dir (live server)) w).parts 9 w.files),
    λ a _ h. with_at_outside (new_path (dir (live server)) w).parts a.parts 9 w.files h,
  );
}

some_lem : {a b : ℕ} → some a ≡ some b → a ≡ b
some_lem e = cc (e)

safe : is_safe (live server) ≡ true
unfolding is_safe clean dir same_path
safe = refl

-- What lies at or outside of an entry lies outside of what is restored below it.
entry_outside :
    (name : String) (parts : List String)
    → (parts ≡ name ∷ []) ⊎ (strip_prefix (name ∷ []) parts ≡ none)
    → strip_prefix (name ∷ "srv" ∷ []) parts ≡ none
unfolding strip_prefix
entry_outside name [] h = refl
entry_outside name (part ∷ []) h = elim (Bool-cases (name == part)) [
  | inl e ↦ rw e refl
  | inr e ↦ rw e refl
]
entry_outside name (part ∷ more ∷ parts) (inl e) = absurd (cc)
entry_outside name (part ∷ more ∷ parts) (inr h) = elim (Bool-cases (name == part)) [
  | inl e ↦ absurd (some_none (rw e at h))
  | inr e ↦ rw e refl
]
  where
    some_none : some (more ∷ parts) ≡ none → ⊥
    some_none k = cc

staged-Outside :
    (name : String) (k : IsName name) (q : FilePath)
    → (q ≡ entry server name) ⊎ Outside q (entry server name)
    → strip_prefix (join (entry server name) (live server)).parts q.parts ≡ none
unfolding clean dir child
staged-Outside name k q h =
    rw (staged_parts server safe name k) (entry_outside name q.parts (at_parts h))
  where
    at_parts :
        (q ≡ entry server name) ⊎ Outside q (entry server name)
        → (q.parts ≡ name ∷ []) ⊎ (strip_prefix (name ∷ []) q.parts ≡ none)
    at_parts (inl e) = inl (ap (λ (p : FilePath). p.parts) e)
    at_parts (inr e) = inr e

pub small-Tree : (picky : Bool) → Tree (host picky) server dir_at HoldsSnapshot
small-Tree picky = record {
  shows = λ w q _. refl;
  sleeps = λ pause w q _. refl;
  versions = λ w q _. refl;
  acts = λ verb w q _. refl;
  restics = λ arguments w q _. refl;
  restic_stats = λ snapshot p w q _. refl;
  free_blocks = λ p w q _. refl;
  syncs = λ p w q _. refl;
  looks = λ p w e. looks_lem (w.files p.parts) e;
  mkdir_temps = λ prefix w. mkdir_temps_lem w _ refl;
  removes = λ p w q _ h. without_outside p.parts q.parts w.files h;
  remove_alls = λ p w q _ h. without_outside p.parts q.parts w.files h;
  renames = λ p q w. renames_lem p q w _ refl;
  restores = λ snapshot name w k. record {
    so = (
      λ d e. sym (
          some_lem
            (sym (with_at_self (join (entry server name) (live server)).parts 2 w.files) ∙ e)),
      λ q _ h. with_at_outside _ q.parts 2 w.files (staged-Outside name k q h),
    );
  };
}
