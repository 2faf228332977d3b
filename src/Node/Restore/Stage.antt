-- ===== src/Node/Restore/Stage.antt =====
-- cmd/hogs-agent/restore.go up to the swap: the safety snapshot, the staged data and a name for the data
-- from before.
use hogs.Prelude.{ℕ, ◌*◌, ◌%◌, ◌^◌, String, Bool, true, false, some, [], ◌∷◌, ◌==◌, eqb, ltb}
use Prim.Native.String.{◌++◌}
use hogs.Node.Paths.{FilePath, clean, join, dir, base}
use hogs.Node.Steps.{Op, return, fail, observe, ◌>>=◌, ◌or_else◌, on◌run◌otherwise◌}
use hogs.Node.Host.{directory, Look, found, Server, Host}
use hogs.Node.Backup.{backup_create}
use hogs.Node.Restore.{
  Failure, failure, failure_with, required_restore_space, fail_telling, fail_quietly,
}

unfoldable pub is_directory : Look → Bool
is_directory (found directory) = true
is_directory _ = false

module _ {W : Type 0} (host : Host W) (server : Server) where
  -- The safety snapshot and its identity.
  unfoldable pub take_safety : String → Bool → Op W Failure String
  unfolding backup_create failure fail_telling
  take_safety server_id was_running = do
    safety ←
        backup_create host server [] ("hogs-pre-restore" ∷ ("hogs-server-" ++ server_id) ∷ [])
        or_else (λ e.
            fail_telling host server was_running
              (failure ("create pre-restore safety snapshot: " ++ e)))
    on safety == ""
        run fail_telling host server was_running
            (failure "pre-restore safety snapshot did not return an ID")
        otherwise return safety

  -- `resticRestoreSize`
  unfoldable pub restic_restore_size : String → Op W String ℕ
  unfolding clean
  restic_restore_size snapshot = do
    size ← host.restic_stats server snapshot (clean server.data_dir)
    on eqb size 0
        run fail ("snapshot does not contain data below " ++ host.path_text (clean server.data_dir))
        otherwise return size

  -- `runResticRestore`
  unfoldable pub run_restic_restore : String → FilePath → Op W String (Unit {0})
  unfolding clean
  run_restic_restore snapshot staging =
      host.restic_restore server snapshot staging (clean server.data_dir)

  -- `availableDiskSpace`, on uint64.
  unfoldable pub available_disk_space : FilePath → Op W String ℕ
  available_disk_space path = do
    (blocks, size) ← host.free_blocks path
    return (blocks * size % 2 ^ 64)

  -- The snapshot's data in the staging directory, if it fits: its size.
  unfoldable pub fill_staging : String → String → Bool → FilePath → Op W Failure ℕ
  unfolding clean dir join restic_restore_size available_disk_space run_restic_restore is_directory
      required_restore_space failure_with fail_telling fail_quietly
  fill_staging snapshot safety was_running staging = do
    size ←
        restic_restore_size snapshot
        or_else (λ e. fail_telling host server was_running (failure_with safety e))
    available ← available_disk_space (dir (clean server.data_dir)) or_else (λ e.
        fail_quietly host server was_running
          (failure_with safety ("inspect restore disk space: " ++ e)))
    _ ←
        on ltb available (required_restore_space size)
        run fail_quietly host server was_running
            (record (failure_with safety (
              "insufficient free space for transactional restore: need "
              ++ host.decimal (required_restore_space size)
              ++ " bytes, have "
              ++ host.decimal available)) { restore_bytes = some size })
        otherwise return tt
    _ ←
        run_restic_restore snapshot staging
        or_else (λ e. fail_telling host server was_running (failure_with safety e))
    look ← observe (host.lstat (join staging (clean server.data_dir)))
    on is_directory look
        run return size
        otherwise fail_quietly host server was_running (
            failure_with safety
              "staged snapshot does not contain the configured server data directory")

  unfoldable pub reserve_rollback : String → Bool → Op W Failure FilePath
  unfolding clean dir base failure_with fail_quietly
  reserve_rollback safety was_running = do
    path ←
        host.mkdir_temp (dir (clean server.data_dir))
          (".hogs-rollback-" ++ base (clean server.data_dir) ++ "-")
        or_else (λ e.
            fail_quietly host server was_running
              (failure_with safety ("reserve rollback path: " ++ e)))
    _ ← host.remove path or_else (λ e.
        fail_quietly host server was_running (failure_with safety ("prepare rollback path: " ++ e)))
    return path
