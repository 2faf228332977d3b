-- ===== src/Node/Resolve.antt =====
-- cmd/hogs-agent/main.go: the paths that a request may name, all in the data directory of its server.
pub mod Confined
use hogs.Prelude.{String, false, Option, none, some, List, [], ◌∷◌, if◌then◌else◌}
use hogs.Prelude.Fallible.{Result, ok, err, ◌>>=◌}
use hogs.Node.Paths.{FilePath, clean, join, child, below_base}
use hogs.Node.Host.{symlink, Look, found, missing, unseen, Server}

-- One component: go on below it, or stop.
unfoldable pub after_look : Look → Result String (Unit {0}) → Result String (Unit {0})
after_look (found symlink) deeper = err "symlink path component is not allowed"
after_look (found kind) deeper = deeper
after_look missing deeper = ok tt
after_look (unseen e) deeper = err e

-- The loop over the components.
unfoldable pub scan_components :
    (FilePath → Look) → FilePath → List String → Result String (Unit {0})
unfolding after_look
scan_components look current [] = after_look (look current) (ok tt)
scan_components look current (name ∷ names) =
    after_look (look current) (scan_components look (child current name) names)

unfoldable pub absolute_path : Server → FilePath → FilePath
unfolding clean join
absolute_path server p = if p.rooted then clean p else join server.data_dir p

unfoldable pub scan_below :
    (FilePath → Look) → FilePath → FilePath → Option (List String) → Result String FilePath
unfolding scan_components
scan_below look data_dir path none = err "path traversal detected"
scan_below look data_dir path (some names) = do _ ← scan_components look data_dir names; ok path

-- `resolvePath`, with what `os.Lstat` answers.
unfoldable pub resolve_path : (FilePath → Look) → Server → FilePath → Result String FilePath
unfolding absolute_path clean below_base scan_below
resolve_path look server p =
    scan_below look (clean server.data_dir) (absolute_path server p)
      (below_base (clean server.data_dir) (absolute_path server p))

unfoldable pub resolve_each :
    (FilePath → Look) → Server → List FilePath → Result String (List FilePath)
unfolding resolve_path
resolve_each look server [] = ok []
resolve_each look server (p ∷ ps) = do
  path ← resolve_path look server p
  paths ← resolve_each look server ps
  ok (path ∷ paths)

-- The paths of a backup; none asked for stands for the data directory.
unfoldable pub backup_paths :
    (FilePath → Look) → Server → List FilePath → Result String (List FilePath)
unfolding resolve_path resolve_each
backup_paths look server [] = do
  path ← resolve_path look server (record { rooted = false; parts = "." ∷ [] })
  resolve_each look server (path ∷ [])
backup_paths look server (p ∷ ps) = resolve_each look server (p ∷ ps)
