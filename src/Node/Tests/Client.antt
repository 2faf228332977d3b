-- ===== src/Node/Tests/Client.antt =====
-- What a client does with the files of the small host, on which every directory exists.
use hogs.Prelude.{true, false, none, some, [], ◌∷◌, ◌≡◌, refl}
use hogs.Prelude.Fallible.{ok}
use hogs.Node.Paths.{FilePath, clean, child, strip_prefix}
use hogs.Node.Steps.{
  Leaves, ◌>>=◌, ◌>>◌, ◌or_else◌, on◌run◌otherwise◌, ◌deferred◌, attempt, observe,
}
use hogs.Node.Host.{found, directory}
use hogs.Node.Files.{FileSystem, file_operation, file_delete, mkdir}
use hogs.Node.Files.Confined.{IsInside, IsIndifferent, file_operation-confined}
use hogs.Node.Tests.{World, server, world, look_of, with_at}

-- Every change leaves the number 7 at its path.
abbrev marked : FilePath → World → World
marked p w = record w { files = with_at p.parts 7 w.files }

abbrev fs : FileSystem World
fs = record {
  lstat = λ p w. look_of (w.files p.parts);
  stat = λ p w. found directory;
  mkdir_all = λ p w. (ok tt, w);
  remove = λ p w. (ok tt, marked p w);
  rename = λ p q w. (ok tt, marked p (marked q w));
  open_file = λ p w. (ok tt, w);
  create_exclusive = λ p w. (ok tt, marked p w);
  copy = λ p q w. (ok tt, marked q w);
  sync = λ p w. (ok tt, w);
  close = λ p w. (ok tt, w);
}

abbrev level : FilePath
level = record { rooted = false; parts = "level.dat" ∷ [] }

abbrev saved : FilePath
saved = record { rooted = true; parts = "srv" ∷ "saved.dat" ∷ [] }

program : Unit {0}
unfolding ◌>>=◌ ◌>>◌ ◌or_else◌ on◌run◌otherwise◌ ◌deferred◌ attempt observe strip_prefix clean child
program = tt

-- The small host with a file of the server.
abbrev stocked : World
stocked = record (world true) { files = with_at ("srv" ∷ "level.dat" ∷ []) 1 (world true).files }

renamed :
    (file_operation fs server "rename" level saved stocked).1.files ("srv" ∷ "saved.dat" ∷ [])
    ≡ some 7
unfolding program file_operation
renamed = refl

-- There is nothing at /etc.
abbrev IsBare : World → Type 0
IsBare w = w.files ("etc" ∷ []) ≡ none

marked_lem :
    (p : FilePath) (w : World) → IsInside fs server stocked p → IsBare w → IsBare (marked p w)
unfolding strip_prefix clean
marked_lem p w (names, e, _, _) h = rw e h

bare : IsIndifferent fs server stocked IsBare
bare = record {
  mkdirs = λ p w i h. h;
  removes = λ p w i h. marked_lem p w i h;
  renames = λ p q w i j h. marked_lem p (marked q w) i (marked_lem q w j h);
  opens = λ p w i h. h;
  creates = λ p w i h. marked_lem p w i h;
  copies = λ p q w i j h. marked_lem q w j h;
  syncs = λ p w i h. h;
  closes = λ p w i h. h;
}

still_bare : IsBare stocked
unfolding strip_prefix
still_bare = refl

file_operation-confined_example :
    Leaves IsBare (file_operation fs server "rename" level saved stocked)
    × Leaves IsBare (file_delete fs server level stocked)
    × Leaves IsBare (mkdir fs server level stocked)
file_operation-confined_example =
    file_operation-confined fs server stocked bare refl "rename" level saved still_bare
