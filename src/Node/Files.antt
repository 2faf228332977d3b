-- ===== src/Node/Files.antt =====
-- cmd/hogs-agent/main.go: what a client may do with the files of a server.
pub mod Confined
use hogs.Prelude.{
  ℕ, String, Bool, true, false, not, ◌&&◌, ◌||◌, Option, none, some, List, [], ◌∷◌, ◌==◌, any,
  if◌then◌else◌, length,
}
use hogs.Prelude.Fallible.{Result, ok, err}
use Prim.Native.String.{◌++◌}
use hogs.Node.Paths.{FilePath, clean, dir, below_base, same_path}
use hogs.Node.Steps.{
  Op, return, fail, computed, observe, attempt, ◌>>=◌, ◌>>◌, ◌or_else◌, on◌run◌otherwise◌,
  ◌deferred◌,
}
use hogs.Node.Host.{Kind, directory, regular, symlink, Look, found, missing, unseen, Server}
use hogs.Node.Resolve.{resolve_path}

-- The calls of Go's os and io on files; `copy` is io.Copy between two open files.
pub record FileSystem (W : Type 0) : Type 0 where
  pub lstat : FilePath → W → Look
  pub stat : FilePath → W → Look
  pub mkdir_all : FilePath → Op W String (Unit {0})
  pub remove : FilePath → Op W String (Unit {0})
  pub rename : FilePath → FilePath → Op W String (Unit {0})
  pub open_file : FilePath → Op W String (Unit {0})
  pub create_exclusive : FilePath → Op W String (Unit {0})
  pub copy : FilePath → FilePath → Op W String (Unit {0})
  pub sync : FilePath → Op W String (Unit {0})
  pub close : FilePath → Op W String (Unit {0})

-- The checks of `fileOperation`, in their order.
unfoldable pub check_operation : String → Result String (Unit {0})
check_operation operation =
    if any (λ known. operation == known) ("rename" ∷ "copy" ∷ "move" ∷ [])
    then ok tt
    else err "unsupported file operation"

unfoldable pub check_entries : FilePath → FilePath → FilePath → Result String (Unit {0})
unfolding same_path
check_entries data_dir source target =
    if same_path data_dir source || (same_path data_dir target || same_path source target)
    then err "source and destination must identify different entries"
    else ok tt

unfoldable pub source_kind : Look → Result String Kind
source_kind (found symlink) = err "symbolic links are not supported"
source_kind (found kind) = ok kind
source_kind missing = err "no such file or directory"
source_kind (unseen e) = err e

unfoldable pub check_target : Look → Result String (Unit {0})
check_target (found kind) = err "destination already exists"
check_target missing = ok tt
check_target (unseen e) = err e

unfoldable pub check_parent : Look → Result String (Unit {0})
check_parent (found directory) = ok tt
check_parent _ = err "destination directory does not exist"

unfoldable pub is_directory_kind : Kind → Bool
is_directory_kind directory = true
is_directory_kind _ = false

unfoldable pub is_regular_kind : Kind → Bool
is_regular_kind regular = true
is_regular_kind _ = false

-- Is the target the source, or below it?
unfoldable pub is_within : FilePath → FilePath → Bool
unfolding below_base
is_within source target = elim (below_base source target) [ none ↦ false | some _ ↦ true ]

module _ {W : Type 0} (fs : FileSystem W) (server : Server) where
  unfoldable pub resolve_now : FilePath → Op W String FilePath
  unfolding resolve_path
  resolve_now p w = (resolve_path (λ path. fs.lstat path w) server p, w)

  unfoldable pub keep_or_remove :
      FilePath → Result String (Unit {0}) → Result String (Unit {0}) → Op W String (Unit {0})
  keep_or_remove target (ok _) (ok _) = return tt
  keep_or_remove target (err e) closed = attempt (fs.remove target) >> fail e
  keep_or_remove target (ok _) (err e) = attempt (fs.remove target) >> fail e

  -- `copyFileExclusive`
  unfoldable pub copy_file_exclusive : FilePath → FilePath → Op W String (Unit {0})
  unfolding keep_or_remove
  copy_file_exclusive source target = do
    _ ← fs.open_file source
    (do
      _ ← fs.create_exclusive target
      copied ← attempt (fs.copy source target >> fs.sync target)
      closed ← attempt (fs.close target)
      keep_or_remove target copied closed)
        deferred fs.close source

  unfoldable pub perform : String → Kind → FilePath → FilePath → Op W String (Unit {0})
  unfolding same_path dir is_within is_directory_kind is_regular_kind copy_file_exclusive
  perform operation kind source target =
      on operation == "rename"
      run (on same_path (dir source) (dir target)
          run fs.rename source target
          otherwise fail "rename must stay in the same directory")
      otherwise (on operation == "move"
          run (on is_directory_kind kind && is_within source target
              run fail "cannot move a directory into itself"
              otherwise fs.rename source target)
          otherwise (on is_regular_kind kind
              run copy_file_exclusive source target
              otherwise fail "only regular files can be copied"))

  -- `fileOperation`
  unfoldable pub file_operation : String → FilePath → FilePath → Op W String (Unit {0})
  unfolding check_operation resolve_now check_entries source_kind check_target check_parent perform
      clean dir
  file_operation operation source_path target_path = do
    _ ← computed (check_operation operation)
    source ← resolve_now source_path
    target ← resolve_now target_path
    _ ← computed (check_entries (clean server.data_dir) source target)
    seen ← observe (fs.lstat source)
    kind ← computed (source_kind seen)
    there ← observe (fs.lstat target)
    _ ← computed (check_target there)
    parent ← observe (fs.stat (dir target))
    _ ← computed (check_parent parent)
    perform operation kind source target

  unfoldable pub check_delete : Look → Result String (Unit {0})
  check_delete (found directory) = err "cannot delete directories"
  check_delete (found kind) = ok tt
  check_delete missing = err "no such file or directory"
  check_delete (unseen e) = err e

  -- `fileDelete`
  unfoldable pub file_delete : FilePath → Op W String (Unit {0})
  unfolding resolve_now check_delete
  file_delete p = do
    path ← resolve_now p
    info ← observe (fs.stat path)
    _ ← computed (check_delete info)
    fs.remove path

  -- `mkdir`
  unfoldable pub mkdir : FilePath → Op W String (Unit {0})
  unfolding resolve_now
  mkdir p = do path ← resolve_now p; fs.mkdir_all path
