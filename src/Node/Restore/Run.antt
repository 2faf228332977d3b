-- ===== src/Node/Restore/Run.antt =====
-- cmd/hogs-agent/restore.go: the whole of a restore.
use hogs.Prelude.{ℕ, String, Bool, not, ◌==◌, if◌then◌else◌}
use hogs.Prelude.Fallible.{Result, ok, err}
use Prim.Native.String.{◌++◌}
use hogs.Node.Paths.{FilePath, clean, dir, base}
use hogs.Node.Steps.{Op, return, fail, observe, computed, attempt, ◌>>=◌, ◌or_else◌, ◌deferred◌}
use hogs.Node.Host.{directory, Look, found, missing, unseen, Server, Host, service_running_state}
use hogs.Node.Restore.{
  Failure, Restored, failure, failure_with, is_snapshot_id, is_safe, stop_running, fail_quietly,
}
use hogs.Node.Restore.Stage.{take_safety, fill_staging, reserve_rollback}
use hogs.Node.Restore.Swap.{activate, verify, roll_back, cleanup_warning}

-- The request's own form.
unfoldable pub check_request : String → Server → String → String → Result Failure (Unit {0})
unfolding is_snapshot_id failure is_safe clean
check_request server_id server snapshot confirmation =
    if not (is_snapshot_id snapshot)
    then err (failure "snapshot must be a full or abbreviated hexadecimal restic snapshot ID")
    else if not (confirmation == server_id)
    then err (failure "restore confirmation does not match the immutable server ID")
    else if not (is_safe (clean server.data_dir))
    then err (failure "server data directory is not safe for transactional restore")
    else ok tt

-- The live data directory must be a real one.
unfoldable pub check_live : Look → Result Failure (Unit {0})
unfolding failure
check_live (found directory) = ok tt
check_live (unseen e) = err (failure ("inspect live server data: " ++ e))
check_live missing = err (failure "inspect live server data: no such file or directory")
check_live (found _) = err (failure "live server data path must be a real directory")

module _ {W : Type 0} (host : Host W) (server : Server) where
  unfoldable pub sync_after : Result String (Unit {0}) → Op W String (Unit {0})
  unfolding clean dir
  sync_after (ok _) = host.sync_directory (dir (clean server.data_dir))
  sync_after (err _) = return tt

  -- The swap, its check, and the end of a restore that succeeds.
  unfoldable pub swap_in : String → String → Bool → FilePath → ℕ → FilePath → Op W Failure Restored
  unfolding clean dir activate verify roll_back sync_after cleanup_warning
  swap_in snapshot safety was_running staging size rollback_path = do
    _ ← activate host server safety was_running staging rollback_path
    _ ← attempt (host.sync_directory (dir (clean server.data_dir)))
    _ ←
        verify host server was_running
        or_else roll_back host server safety was_running rollback_path
    removed ← attempt (host.remove_all rollback_path)
    _ ← attempt (sync_after removed)
    now ← observe host.time
    return (record {
      snapshot_id = snapshot;
      safety_snapshot_id = safety;
      restore_bytes = size;
      service_restarted = was_running;
      completed_at = now;
      warning = cleanup_warning removed;
    })

  -- From the staging directory on.
  unfoldable pub restore_from : String → String → Bool → FilePath → Op W Failure Restored
  unfolding fill_staging reserve_rollback swap_in
  restore_from snapshot safety was_running staging = do
    size ← fill_staging host server snapshot safety was_running staging
    rollback_path ← reserve_rollback host server safety was_running
    swap_in snapshot safety was_running staging size rollback_path

  -- `restoreSnapshot` once the state of the service is known.
  unfoldable pub after_state : String → String → Bool → Op W Failure Restored
  unfolding clean dir base failure_with stop_running take_safety fail_quietly restore_from
  after_state server_id snapshot was_running = do
    _ ← stop_running host server was_running
    safety ← take_safety host server server_id was_running
    staging ←
        host.mkdir_temp (dir (clean server.data_dir))
          (".hogs-restore-" ++ base (clean server.data_dir) ++ "-")
        or_else (λ e.
            fail_quietly host server was_running
              (failure_with safety ("create restore staging directory: " ++ e)))
    restore_from snapshot safety was_running staging deferred host.remove_all staging

  -- `restoreSnapshot`
  unfoldable pub restore_snapshot : String → String → String → Op W Failure Restored
  unfolding check_request check_live clean failure service_running_state after_state
  restore_snapshot server_id text confirmation = do
    _ ← computed (check_request server_id server (host.trim_space text) confirmation)
    look ← observe (host.lstat (clean server.data_dir))
    _ ← computed (check_live look)
    was_running ←
        service_running_state host server.unit
        or_else (λ e. fail (failure ("determine service state: " ++ e)))
    after_state server_id (host.trim_space text) was_running
