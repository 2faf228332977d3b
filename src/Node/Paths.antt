-- ===== src/Node/Paths.antt =====
-- Paths as Go's path/filepath reads them on a node, by their parts between slashes. An empty text is
-- the relative path without parts.
pub mod Parts
use hogs.Prelude.{
  String, Bool, true, false, not, ◌&&◌, ◌||◌, Option, none, some, List, [], ◌∷◌, ◌++◌, ◌==◌,
  same_bool, if◌then◌else◌,
}

pub record FilePath : Type 0 where
  pub rooted : Bool
  pub parts : List String

-- `..` on the parts so far, the last one first.
unfoldable pub up : Bool → List String → List String
up rooted [] = if rooted then [] else ".." ∷ []
up rooted (part ∷ before) = if part == ".." then ".." ∷ part ∷ before else before

unfoldable pub clean_step : Bool → List String → String → List String
unfolding up
clean_step rooted before part =
    if part == "" || part == "."
    then before
    else if part == ".."
    then up rooted before
    else part ∷ before

unfoldable pub reverse_onto : List String → List String → List String
reverse_onto [] after = after
reverse_onto (part ∷ before) after = reverse_onto before (part ∷ after)

unfoldable pub clean_parts : Bool → List String → List String → List String
unfolding clean_step reverse_onto
clean_parts rooted before [] = reverse_onto before []
clean_parts rooted before (part ∷ parts) = clean_parts rooted (clean_step rooted before part) parts

-- `filepath.Clean`
unfoldable pub clean : FilePath → FilePath
unfolding clean_parts
clean p = record p { parts = clean_parts p.rooted [] p.parts }

-- `filepath.Join` of two paths, the second one relative.
unfoldable pub join : FilePath → FilePath → FilePath
unfolding clean
join p q = clean (record p { parts = p.parts ++ q.parts })

unfoldable pub without_last : List String → List String
without_last [] = []
without_last (part ∷ []) = []
without_last (part ∷ next ∷ parts) = part ∷ without_last (next ∷ parts)

unfoldable pub last_part : List String → String
last_part [] = ""
last_part (part ∷ []) = part
last_part (part ∷ next ∷ parts) = last_part (next ∷ parts)

-- `filepath.Dir` and `filepath.Base` of a clean path that has a part.
unfoldable pub dir : FilePath → FilePath
unfolding without_last
dir p = record p { parts = without_last p.parts }

unfoldable pub base : FilePath → String
unfolding last_part
base p = last_part p.parts

unfoldable pub child : FilePath → String → FilePath
child p name = record p { parts = p.parts ++ name ∷ [] }

-- What follows a list of parts.
unfoldable pub strip_prefix : List String → List String → Option (List String)
strip_prefix [] parts = some parts
strip_prefix (part ∷ prefix) [] = none
strip_prefix (part ∷ prefix) (next ∷ parts) =
    let rest = strip_prefix prefix parts in if part == next then rest else none

-- `path == base`, or it starts with `base` and a slash: the parts below. No clean path starts with
-- "//" or "./".
unfoldable pub below_base : FilePath → FilePath → Option (List String)
unfolding strip_prefix
below_base p q =
    let rest = strip_prefix p.parts q.parts in
    if same_bool p.rooted q.rooted
    then elim rest [
      | none ↦ none
      | some [] ↦ some []
      | some (part ∷ parts) ↦ elim p.parts [ [] ↦ none | _ ∷ _ ↦ some (part ∷ parts) ]
    ]
    else none

unfoldable pub same_path : FilePath → FilePath → Bool
unfolding below_base
same_path p q = elim (below_base p q) [ some [] ↦ true | _ ↦ false ]
