-- ===== src/Node/Wait.antt =====
-- cmd/hogs-agent/restore.go and update.go: the loops that ask again until a service has the wanted
-- state, or the game answers, or the deadline is over. Each has fuel for the rounds that fit in its
-- time, and one more.
pub mod Rounds
use hogs.Prelude.{
  ℕ, zero, suc, ◌+◌, String, Bool, true, false, Option, none, some, ◌==◌, ◌&&◌, not, ltb, same_bool,
}
use hogs.Prelude.Fallible.{ok}
use hogs.Node.Steps.{Op, return, fail, observe, advance, ◌>>◌, ◌>>=◌, ◌or_else◌, on◌run◌otherwise◌}
use hogs.Node.Host.{Host, Server, service_running_state}

pub data WaitError : Type 0 where
  unknown : String → WaitError
  stopped timed_out out_of_rounds : WaitError

-- `restoreStateTimeout` with its pause, and the rounds that fit in it.
abbrev pub state_timeout : ℕ
state_timeout = 90_000

abbrev pub state_pause : ℕ
state_pause = 250

abbrev pub state_rounds : ℕ
state_rounds = 361

abbrev pub readiness_timeout : ℕ
readiness_timeout = 300_000

abbrev pub readiness_pause : ℕ
readiness_pause = 2000

abbrev pub readiness_rounds : ℕ
readiness_rounds = 152

module _ {W : Type 0} (host : Host W) where
  unfoldable pub poll_state : ℕ → String → Bool → ℕ → Op W WaitError (Unit {0})
  unfolding service_running_state
  poll_state zero unit running deadline = fail out_of_rounds
  poll_state (suc rounds) unit running deadline = do
    current ← service_running_state host unit or_else (λ e. fail (unknown e))
    on same_bool current running run return tt otherwise (do
      now ← observe host.time
      on ltb now deadline
          run advance (host.sleep state_pause) >> poll_state rounds unit running deadline
          otherwise fail timed_out)

  -- `waitForRestoreServiceState` and `waitForUpdateServiceState`
  unfoldable pub wait_for_service_state : String → Bool → Op W WaitError (Unit {0})
  unfolding poll_state
  wait_for_service_state unit running = do
    now ← observe host.time
    poll_state state_rounds unit running (now + state_timeout)

  unfoldable pub ask_version : Server → Op W WaitError String
  ask_version server w = (ok (host.game_version server w).0, (host.game_version server w).1)

  unfoldable pub poll_readiness : ℕ → Server → ℕ → Op W WaitError (Unit {0})
  unfolding service_running_state ask_version
  poll_readiness zero server deadline = fail out_of_rounds
  poll_readiness (suc rounds) server deadline = do
    running ← service_running_state host server.unit or_else (λ e. fail (unknown e))
    version ← on running run ask_version server otherwise fail stopped
    now ← observe host.time
    on not (version == "")
        run return tt
        otherwise on ltb deadline now
        run fail timed_out
        otherwise (do advance (host.sleep readiness_pause); poll_readiness rounds server deadline)

  -- Can the game be asked for its version?
  unfoldable pub has_version : Server → Bool
  has_version server = elim (host.version_command server.game_type) [
    | none ↦ false
    | some command ↦ server.console_type == "rcon" && not (command == "")
  ]

  -- `waitForRestoreReadiness`
  unfoldable pub wait_for_readiness : Server → Op W WaitError (Unit {0})
  unfolding has_version poll_readiness
  wait_for_readiness server =
      on has_version server
      run (do
        now ← observe host.time
        poll_readiness readiness_rounds server (now + readiness_timeout))
      otherwise return tt
