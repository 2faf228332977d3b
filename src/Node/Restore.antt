-- ===== src/Node/Restore.antt =====
-- cmd/hogs-agent/restore.go: a snapshot becomes the data directory of a server, by a swap of
-- directories with the service stopped, or the directory from before comes back.
pub mod Stage
pub mod Swap
pub mod Run
pub mod Before
pub mod Quiet
pub mod Service
pub mod Promises
pub mod Tree
pub mod Places
pub mod Stages
pub mod Moves
pub mod Back
pub mod Kept
use hogs.Prelude.{
  ℕ, ◌+◌, ◌*◌, ◌/◌, ◌%◌, ◌^◌, String, Bool, true, false, not, ◌&&◌, ◌||◌, Option, none, some, List,
  [], ◌∷◌, ◌==◌, all, eqb, leb, ltb, length,
}
use hogs.Prelude.Text.{codes}
use hogs.Prelude.Fallible.{Result, ok, err}
use Prim.Native.String.{◌++◌}
use hogs.Node.Paths.{FilePath, clean, join, dir, base, same_path}
use hogs.Node.Steps.{
  Op, return, fail, observe, attempt, quietly, telling, ◌>>=◌, ◌>>◌, ◌or_else◌, on◌run◌otherwise◌,
  ◌deferred◌,
}
use hogs.Node.Host.{
  Kind, directory, Look, found, missing, unseen, Server, Host, service_running_state,
  execute_action,
}
use hogs.Node.Wait.{
  WaitError, unknown, stopped, timed_out, out_of_rounds, wait_for_service_state, wait_for_readiness,
}
use hogs.Node.Backup.{backup_create}

-- The maps of a failure and of a success.
pub record Failure : Type 0 where
  pub message : String
  pub safety_snapshot_id : Option String
  pub restore_bytes : Option ℕ
  pub rollback_restored : Option Bool

pub record Restored : Type 0 where
  pub snapshot_id : String
  pub safety_snapshot_id : String
  pub restore_bytes : ℕ
  pub service_restarted : Bool
  pub completed_at : ℕ
  pub warning : Option String

unfoldable pub failure : String → Failure
failure message = record {
  message = message;
  safety_snapshot_id = none;
  restore_bytes = none;
  rollback_restored = none;
}

unfoldable pub failure_with : String → String → Failure
unfolding failure
failure_with safety message = record (failure message) { safety_snapshot_id = some safety }

unfoldable pub describe : WaitError → String
describe (unknown e) = e
describe stopped = "service stopped before its game API became ready"
describe timed_out = "timed out waiting for service"
describe out_of_rounds = "out of rounds"

-- What a message adds for a step that failed.
unfoldable pub note : String → Result String (Unit {0}) → String
note what (ok _) = ""
note what (err e) = what ++ e

unfoldable pub told : Failure → Result String (Unit {0}) → Failure
unfolding note
told f result = record f {
  message = f.message ++ note "; additionally failed to restart original service: " result;
}

unfoldable pub is_hex : ℕ → Bool
is_hex c = leb b'0' c && leb c b'9' || leb b'a' c && leb c b'f' || leb b'A' c && leb c b'F'

-- `snapshotIDPattern`
unfoldable pub is_snapshot_id : String → Bool
unfolding is_hex
is_snapshot_id text =
    all is_hex (codes text) && leb 8 (length (codes text)) && leb (length (codes text)) 64

-- `requiredRestoreSpace`, on uint64.
unfoldable pub required_restore_space : ℕ → ℕ
required_restore_space size = (size + size / 20 + 64 * 1024 * 1024) % 2 ^ 64

-- A directory that is not the file system's root.
unfoldable pub is_safe : FilePath → Bool
unfolding same_path dir
is_safe p =
    p.rooted
    && not (same_path p (record { rooted = true; parts = [] }))
    && not (same_path (dir p) p)

module _ {W : Type 0} (host : Host W) (server : Server) where
  -- The state that a wait asks for, with its error as a text.
  unfoldable pub await_state : Bool → Op W String (Unit {0})
  unfolding wait_for_service_state describe
  await_state running =
      wait_for_service_state host server.unit running or_else (λ e. fail (describe e))

  -- `restartOriginal`, after a stop by the restore or not.
  unfoldable pub restart_original : Bool → Bool → Op W String (Unit {0})
  unfolding execute_action await_state
  restart_original was_running stopped_by_restore =
      on was_running && stopped_by_restore
      run execute_action host server "start" >> await_state true
      otherwise return tt

  unfoldable pub stop_running : Bool → Op W Failure (Unit {0})
  unfolding execute_action await_state failure restart_original
  stop_running false = return tt
  stop_running true = do
    _ ←
        execute_action host server "stop"
        or_else (λ e. fail (failure ("stop service before restore: " ++ e)))
    await_state false or_else (λ e.
        quietly (restart_original true true) (failure ("wait for service to stop: " ++ e)))

  -- A failure after the stop: the service is started again, and the error of that told, or not.
  unfoldable pub fail_telling : {A : Type 0} → Bool → Failure → Op W Failure A
  unfolding restart_original told
  fail_telling was_running f = telling (restart_original was_running was_running) (told f)

  unfoldable pub fail_quietly : {A : Type 0} → Bool → Failure → Op W Failure A
  unfolding restart_original
  fail_quietly was_running f = quietly (restart_original was_running was_running) f
