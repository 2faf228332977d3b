-- ===== src/Node/Update.antt =====
-- cmd/hogs-agent/update.go: the update of a server by its own unit, with the service stopped, after a
-- safety snapshot.
pub mod Safety
use hogs.Prelude.{
  String, Bool, true, false, ◌&&◌, not, Option, none, some, List, [], ◌∷◌, ◌==◌, ℕ, if◌then◌else◌,
}
use hogs.Prelude.Fallible.{Result, ok, err}
use Prim.Native.String.{◌++◌}
use hogs.Node.Steps.{
  Op, return, fail, computed, observe, attempt, telling, ◌>>=◌, ◌>>◌, ◌or_else◌, on◌run◌otherwise◌,
}
use hogs.Node.Host.{Server, Host, service_running_state, execute_action}
use hogs.Node.Wait.{wait_for_readiness}
use hogs.Node.Restore.{describe, note, await_state}
use hogs.Node.Backup.{backup_create}

-- The maps of a failure and of a success.
pub record Failure : Type 0 where
  pub message : String
  pub code : Option String
  pub safety_snapshot_id : Option String
  pub output : Option String
  pub updated : Bool

pub record Updated : Type 0 where
  pub safety_snapshot_id : String
  pub output : String
  pub service_restarted : Bool
  pub completed_at : ℕ
  pub warning : Option String

unfoldable pub update_failure : String → Failure
update_failure message = record {
  message = message;
  code = none;
  safety_snapshot_id = none;
  output = none;
  updated = false;
}

unfoldable pub check_update : String → Server → String → Result Failure (Unit {0})
unfolding update_failure
check_update server_id server confirmation =
    if server.update_unit == ""
    then err (record (update_failure "server has no update unit configured") {
      code = some "unsupported";
    })
    else if not (confirmation == server_id)
    then err (update_failure "update confirmation does not match the immutable server ID")
    else ok tt

-- A failure that tells whether the server came back.
unfoldable pub with_restart : Failure → Result String (Unit {0}) → Failure
unfolding note
with_restart f result = record f {
  message = f.message ++ note "; additionally failed to restart the server: " result;
}

unfoldable pub changed_warning : Bool → Result String Bool → Option String
changed_warning false (ok true) = some "the server was stopped before the update but is now running"
changed_warning _ _ = none

module _ {W : Type 0} (host : Host W) (server : Server) where
  -- `startOriginal`, after a stop by the update or not.
  unfoldable pub start_original : Bool → Bool → Op W String (Unit {0})
  unfolding execute_action await_state wait_for_readiness describe
  start_original was_running stopped_by_update =
      on was_running && stopped_by_update
      run execute_action host server "start"
        >> (await_state host server true
            >> (wait_for_readiness host server or_else (λ e. fail (describe e))))
      otherwise return tt

  -- `failWithRestart`
  unfoldable pub fail_with_restart : {A : Type 0} → Bool → Failure → Op W Failure A
  unfolding start_original with_restart
  fail_with_restart was_running f =
      telling (start_original was_running was_running) (with_restart f)

  unfoldable pub stop_for_update : Bool → Op W Failure (Unit {0})
  unfolding execute_action await_state fail_with_restart update_failure
  stop_for_update false = return tt
  stop_for_update true = do
    _ ←
        execute_action host server "stop"
        or_else (λ e. fail (update_failure ("stop service before update: " ++ e)))
    await_state host server false
        or_else (λ e. fail_with_restart true (update_failure ("wait for service to stop: " ++ e)))

  unfoldable pub take_update_safety : String → Bool → Op W Failure String
  unfolding backup_create fail_with_restart update_failure
  take_update_safety server_id was_running = do
    safety ←
        backup_create host server [] ("hogs-pre-update" ∷ ("hogs-server-" ++ server_id) ∷ [])
        or_else (λ e.
            fail_with_restart was_running
              (update_failure ("create pre-update safety snapshot: " ++ e)))
    on safety == ""
        run fail_with_restart was_running
            (update_failure "pre-update safety snapshot did not return an ID")
        otherwise return safety

  -- The answer at the end to whether a server that did not run runs now.
  unfoldable pub state_after : Bool → Op W String Bool
  unfolding service_running_state
  state_after true = return true
  state_after false = service_running_state host server.unit

  -- The update unit and the start after it.
  unfoldable pub run_update : Bool → String → Op W Failure Updated
  unfolding update_failure fail_with_restart start_original state_after changed_warning
  run_update was_running safety = do
    output ← host.start_unit server.update_unit or_else (λ (output, e).
        fail_with_restart was_running (record (update_failure ("run update: " ++ e)) {
          safety_snapshot_id = some safety;
          output = some output;
        }))
    now ← observe host.time
    _ ← start_original was_running was_running or_else (λ e.
        fail (record (update_failure ("update succeeded but the server did not come back: " ++ e)) {
          safety_snapshot_id = some safety;
          output = some output;
          updated = true;
        }))
    running ← attempt (state_after was_running)
    return (record {
      safety_snapshot_id = safety;
      output = output;
      service_restarted = was_running;
      completed_at = now;
      warning = changed_warning was_running running;
    })

  -- `updateServer`
  unfoldable pub update_server : String → String → Op W Failure Updated
  unfolding check_update service_running_state update_failure stop_for_update take_update_safety
      run_update
  update_server server_id confirmation = do
    _ ← computed (check_update server_id server confirmation)
    was_running ←
        service_running_state host server.unit
        or_else (λ e. fail (update_failure ("determine service state: " ++ e)))
    _ ← stop_for_update was_running
    safety ← take_update_safety server_id was_running
    run_update was_running safety
