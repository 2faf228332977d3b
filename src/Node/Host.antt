-- ===== src/Node/Host.antt =====
-- What the agent asks of its host: systemd, restic, the file system, the clock and the running game.
-- `W` is the world as it is at one moment, an error is its text, a time is in milliseconds. The lock of
-- a server's operations lets them run one at a time, so that each is one function of the world.
use hogs.Prelude.{
  ℕ, String, Bool, true, false, Option, none, some, List, [], ◌∷◌, ◌==◌, any, if◌then◌else◌,
}
use hogs.Prelude.Dict.{Dict}
use hogs.Prelude.Fallible.{Result, ok, err}
use Prim.Native.String.{◌++◌}
use hogs.Node.Paths.{FilePath}
use hogs.Node.Steps.{Op, fail, ◌>>=◌, ◌or_else◌, on◌run◌otherwise◌}

pub data Kind : Type 0 where
  directory regular symlink irregular : Kind

-- `os.Lstat` and `os.Stat`
pub data Look : Type 0 where
  found : Kind → Look
  missing : Look
  unseen : String → Look

-- `ServerConfig`, as far as it is read here.
pub record Server : Type 0 where
  pub unit : String
  pub data_dir : FilePath
  pub game_type : String
  pub console_type : String
  pub update_unit : String
  pub environment_file : String

-- `show_unit` is the output of `systemctl show` by its keys, `restic` runs restic with the environment
-- of the server's backup profile and answers the lines of its output, `restic_stats` with the size of a
-- snapshot's data below a path, `restic_restore` puts that data into a directory and verifies it, `start_unit` runs `systemctl start` for a unit that ends, with the lines of its journal.
-- `game_version` is `serverVersion`, `trim_space` and `fields` are those of Go's strings.
-- `version_command` is that of an embedded game type.
pub record Host (W : Type 0) : Type 0 where
  pub lstat : FilePath → W → Look
  pub stat : FilePath → W → Look
  pub rename : FilePath → FilePath → Op W String (Unit {0})
  pub remove : FilePath → Op W String (Unit {0})
  pub remove_all : FilePath → Op W String (Unit {0})
  pub mkdir_temp : FilePath → String → Op W String FilePath
  pub sync_directory : FilePath → Op W String (Unit {0})
  pub free_blocks : FilePath → Op W String (ℕ × ℕ)
  pub show_unit : String → Op W String (Dict String)
  pub systemctl : String → String → Op W String (Unit {0})
  pub start_unit : String → Op W (String × String) String
  pub restic : Server → List String → Op W String (List String)
  pub restic_stats : Server → String → FilePath → Op W String ℕ
  pub restic_restore : Server → String → FilePath → FilePath → Op W String (Unit {0})
  pub game_version : Server → W → String × W
  pub version_command : String → Option String
  pub time : W → ℕ
  pub sleep : ℕ → W → W
  pub trim_space : String → String
  pub fields : String → List String
  pub decimal : ℕ → String
  pub path_text : FilePath → String

-- values[key]
unfoldable pub value_of : Dict String → String → String
value_of values key = elim (values key) [ none ↦ "" | some value ↦ value ]

unfoldable pub service_state_of : String → String → Result String Bool
service_state_of load active =
    if load == "loaded"
    then if any (λ state. active == state) ("inactive" ∷ "failed" ∷ [])
      then ok false
      else if any (λ state. active == state)
          ("active" ∷ "activating" ∷ "deactivating" ∷ "reloading" ∷ [])
      then ok true
      else err ("managed service returned unknown state " ++ active)
    else err "managed service is not loaded"

module _ {W : Type 0} (host : Host W) where
  -- `serviceRunningState`
  unfoldable pub service_running_state : String → Op W String Bool
  unfolding value_of service_state_of
  service_running_state unit = do
    values ← host.show_unit unit or_else (λ e. fail ("query service state: " ++ e))
    (λ w. (service_state_of (value_of values "LoadState") (value_of values "ActiveState"), w))

  -- `executeAction`, without the message of its success.
  unfoldable pub execute_action : Server → String → Op W String (Unit {0})
  execute_action server action =
      on server.unit == ""
      run fail "no service name configured"
      otherwise on any (λ verb. action == verb) ("start" ∷ "stop" ∷ "restart" ∷ [])
      run host.systemctl action server.unit
      otherwise fail ("unknown action: " ++ action)
