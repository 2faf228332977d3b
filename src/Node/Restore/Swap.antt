-- ===== src/Node/Restore/Swap.antt =====
-- cmd/hogs-agent/restore.go from the swap on: its two renames, the check of the service, and the way
-- back.
use hogs.Prelude.{String, Bool, true, false, Option, none, some}
use hogs.Prelude.Fallible.{Result, ok, err}
use Prim.Native.String.{◌++◌}
use hogs.Node.Paths.{FilePath, clean, join, dir, base}
use hogs.Node.Steps.{Op, return, fail, attempt, ◌>>=◌, ◌>>◌, ◌or_else◌, on◌run◌otherwise◌}
use hogs.Node.Host.{Server, Host, service_running_state, execute_action}
use hogs.Node.Wait.{wait_for_readiness}
use hogs.Node.Restore.{
  Failure, failure_with, describe, note, await_state, restart_original, fail_quietly,
}

unfoldable pub is_ok : {A : Type 0} → Result String A → Bool
is_ok (ok _) = true
is_ok (err _) = false

unfoldable pub note_aside : Result String FilePath → String
note_aside (ok _) = ""
note_aside (err e) = "; failed to preserve failed restore: " ++ e

unfoldable pub cleanup_warning : Result String (Unit {0}) → Option String
cleanup_warning (ok _) = none
cleanup_warning (err e) = some ("restore succeeded but rollback data cleanup failed: " ++ e)

module _ {W : Type 0} (host : Host W) (server : Server) where
  -- The two renames; the first one is undone when the second one fails.
  unfoldable pub activate : String → Bool → FilePath → FilePath → Op W Failure (Unit {0})
  unfolding clean join failure_with fail_quietly restart_original note
  activate safety was_running staging rollback_path = do
    _ ← host.rename (clean server.data_dir) rollback_path or_else (λ e.
        fail_quietly host server was_running
          (failure_with safety ("move live data to rollback path: " ++ e)))
    host.rename (join staging (clean server.data_dir)) (clean server.data_dir) or_else (λ e. do
      undone ← attempt (host.rename rollback_path (clean server.data_dir))
      restarted ← attempt (restart_original host server was_running was_running)
      fail (
          failure_with safety (
            "activate restored data: "
            ++ e
            ++ note "; failed to restore original data: " undone
            ++ note "; failed to restart original service: " restarted)))

  -- A name beside the data directory that nothing has.
  unfoldable pub reserve : String → Op W String FilePath
  unfolding clean dir base
  reserve prefix = do
    path ←
        host.mkdir_temp (dir (clean server.data_dir))
          (prefix ++ base (clean server.data_dir) ++ "-")
    host.remove path
    return path

  unfoldable pub stop_restored : Op W String (Unit {0})
  unfolding service_running_state execute_action await_state
  stop_restored = do
    running ← service_running_state host server.unit
    on running
        run execute_action host server "stop" >> await_state host server false
        otherwise return tt

  -- The restored data under another name, and that name.
  unfoldable pub set_aside : Op W String FilePath
  unfolding clean reserve
  set_aside = do
    path ← reserve ".hogs-failed-restore-"
    host.rename (clean server.data_dir) path
    return path

  unfoldable pub drop_aside :
      Result String FilePath → Result String (Unit {0}) → Op W String (Unit {0})
  drop_aside (ok path) (ok _) = host.remove_all path
  drop_aside _ _ = return tt

  -- `rollback` after its renames.
  unfoldable pub return_original :
      String
      → Bool
      → Result String FilePath
      → Result String (Unit {0})
      → String
      → Op W Failure (Unit {0})
  unfolding clean dir restart_original drop_aside note_aside note failure_with is_ok
  return_original safety was_running aside result reason = do
    _ ← attempt (host.sync_directory (dir (clean server.data_dir)))
    restarted ← attempt (restart_original host server was_running was_running)
    _ ← attempt (drop_aside aside result)
    fail
        (record (failure_with safety (
          reason
          ++ note_aside aside
          ++ note "; failed to reactivate original data: " result
          ++ note "; failed to restart original service: " restarted)) {
            rollback_restored = some (is_ok result);
          })

  -- `rollback`
  unfoldable pub roll_back : String → Bool → FilePath → String → Op W Failure (Unit {0})
  unfolding clean stop_restored set_aside return_original
  roll_back safety was_running rollback_path reason = do
    _ ← attempt stop_restored
    aside ← attempt set_aside
    result ← attempt (host.rename rollback_path (clean server.data_dir))
    return_original safety was_running aside result reason

  -- The service in its former state on the restored data.
  unfoldable pub verify : Bool → Op W String (Unit {0})
  unfolding service_running_state execute_action await_state wait_for_readiness describe
  verify true = do
    _ ← execute_action host server "start" or_else (λ e. fail ("start restored service: " ++ e))
    _ ← await_state host server true or_else (λ e. fail ("verify restored service: " ++ e))
    wait_for_readiness host server
        or_else (λ e. fail ("verify restored game readiness: " ++ describe e))
  verify false = do
    running ←
        service_running_state host server.unit
        or_else (λ e. fail ("verify stopped service after restore: " ++ e))
    on running
        run fail "verify stopped service after restore: service unexpectedly started"
        otherwise return tt
