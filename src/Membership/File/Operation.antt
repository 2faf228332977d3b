-- ===== src/Membership/File/Operation.antt =====
-- cmd/hogs-agent/whitelist.go: `whitelistOperation`, by the console of a running game or by the file.
pub mod Guards
use Prim.Native.String.{◌++◌}
use hogs.Prelude.{
  String, Bool, false, not, ◌&&◌, ◌||◌, Option, none, some, List, [], ◌==◌, map, if◌then◌else◌,
}
use hogs.Prelude.Fallible.{Result, ok, err, ◌>>=◌}
use hogs.Membership.Identity.{Driver}
use hogs.Membership.File.{
  Entry, Request, Code, Listing, Commands, FileDriver, Game, Node, read_file, replaces_previous,
}
use hogs.Membership.File.Write.{file_operation}

-- `onlineWhitelistEntries`: the file, where it is there and can be read, or the console's answer.
parsed : Commands → String → List Entry
parsed c output = elim c.parse_list [
  | none ↦ []
  | some parse ↦ map (λ name. record { uuid = ""; name = name }) (parse output)
]

listed_or : Result Code (List Entry) → Option String → List Entry → List Entry
listed_or (ok entries) (some text) answered = entries
listed_or _ _ answered = answered

online_entries : Node → Option FileDriver → Commands → String → List Entry
unfolding parsed listed_or read_file
online_entries node none c output = parsed c output
online_entries node (some f) c output =
    listed_or (read_file node f node.file_after) node.file_after (parsed c output)

-- The command of an operation.
command : Driver → Commands → Request → Result Code String
command d c request =
    if request.operation == "list"
    then ok c.list_command
    else if not (request.operation == "add") && not (request.operation == "remove")
    then err Code.invalid_operation
    else if not (d.is_valid request.username)
    then err Code.invalid_identity
    else if request.operation == "add"
    then ok (c.add_command request.username)
    else ok (c.remove_command request.username)

executed : Node → String → Result Code String
executed node text = elim (node.execute text) [
  | ok output ↦ ok output
  | err e ↦ err Code.rcon_failed
]

-- The removal of the former name after an addition.
then_removed : Node → Driver → Commands → Request → String → Result Code String
unfolding replaces_previous executed
then_removed node d c request output =
    if not (request.operation == "add" && replaces_previous d request)
    then ok output
    else if not (d.is_valid request.previous_username)
    then err Code.invalid_identity
    else executed node (c.remove_command request.previous_username) >>= λ removed.
        ok (if removed == "" then output else node.trimmed (output ++ "\n" ++ removed))

-- `onlineWhitelistOperation`
unfoldable pub online_operation :
    Node → Driver → Commands → Option FileDriver → Request → Result Code Listing
unfolding command executed then_removed online_entries
online_operation node d c f request =
    command d c request >>= executed node >>= then_removed node d c request >>= λ output.
    ok (record { mode = "online"; output = output; entries = online_entries node f c output })

supports_commands : Option Commands → Bool
supports_commands none = false
supports_commands (some c) = not (c.list_command == "")

supports_file : Option FileDriver → Bool
supports_file none = false
supports_file (some f) = not (f.path == "")

-- May the file be used while the service runs?
unfoldable pub is_allowed : FileDriver → Request → Bool → Bool
is_allowed f request running =
    not running
    || request.operation == "list" && f.allow_read_while_running
    || not (request.operation == "list") && f.allow_write_while_running

no_way : Bool → Code
no_way running = if running then Code.online_unsupported else Code.offline_unsupported

by_file :
    Node
    → Driver
    → Option FileDriver
    → Request
    → Bool
    → Option String
    → Result Code Listing × Option String
unfolding is_allowed file_operation no_way
by_file node d none request running file = (err (no_way running), file)
by_file node d (some f) request running file =
    if not (f.path == "") && is_allowed f request running
    then file_operation node d f request running file
    else (err (no_way running), file)

by_commands :
    Node
    → Driver
    → Option Commands
    → Option FileDriver
    → Request
    → Option String
    → Result Code Listing × Option String
unfolding online_operation
by_commands node d none f request file = (err Code.unsupported, file)
by_commands node d (some c) f request file = (online_operation node d c f request, file)

with_state :
    Node → Game → Request → Result String Bool → Option String → Result Code Listing × Option String
unfolding by_file by_commands supports_commands
with_state node game request (err e) file = (err Code.status_unknown, file)
with_state node game request (ok running) file =
    if running && supports_commands game.commands
    then by_commands node game.driver game.commands game.file request file
    else by_file node game.driver game.file request running file

-- `whitelistOperation`: the answer, and the whitelist file as the agent leaves it.
unfoldable pub whitelist_operation :
    Node → Option Game → Request → Option String → Result Code Listing × Option String
unfolding with_state supports_commands supports_file
whitelist_operation node none request file = (err Code.unsupported, file)
whitelist_operation node (some game) request file =
    if not (supports_commands game.commands) && not (supports_file game.file)
    then (err Code.unsupported, file)
    else with_state node game request node.running file
