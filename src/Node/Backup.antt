-- ===== src/Node/Backup.antt =====
-- cmd/hogs-agent/main.go: the snapshot of a server's files by restic.
use hogs.Prelude.{String, List, [], ◌∷◌, ◌++◌, map, starts_with, if◌then◌else◌}
use hogs.Prelude.Fallible.{Result, ok, err}
use hogs.Node.Paths.{FilePath}
use hogs.Node.Steps.{Op, return, fail, ◌>>=◌}
use hogs.Node.Host.{Server, Host}
use hogs.Node.Resolve.{backup_paths}

unfoldable pub tag_arguments : List String → List String
tag_arguments [] = []
tag_arguments (tag ∷ tags) = "--tag" ∷ tag ∷ tag_arguments tags

unfoldable pub second_field : List String → String → String
second_field (first ∷ second ∷ rest) before = second
second_field _ before = before

-- The identity that restic's output names last.
unfoldable pub snapshot_id_of : (String → List String) → List String → String → String
unfolding second_field
snapshot_id_of fields [] before = before
snapshot_id_of fields (line ∷ lines) before =
    snapshot_id_of fields lines
      (if starts_with line "snapshot " then second_field (fields line) before else before)

module _ {W : Type 0} (host : Host W) where
  unfoldable pub restic_backup :
      Server → List String → Result String (List FilePath) → Op W String String
  unfolding tag_arguments snapshot_id_of
  restic_backup server tags (err e) = fail e
  restic_backup server tags (ok paths) = do
    lines ← host.restic server ("backup" ∷ map host.path_text paths ++ tag_arguments tags)
    return (snapshot_id_of host.fields lines "")

  -- `backupCreate`: the identity of the snapshot.
  unfoldable pub backup_create : Server → List FilePath → List String → Op W String String
  unfolding backup_paths restic_backup
  backup_create server paths tags w =
      restic_backup server tags (backup_paths (λ p. host.lstat p w) server paths) w
