-- ===== src/Membership/File/Write.antt =====
-- cmd/hogs-agent/whitelist.go: `fileWhitelistOperation`, the operation on the whitelist's file.
pub mod Laws
pub mod Guards
use hogs.Prelude.{String, Bool, not, ◌&&◌, Option, none, some, List, ◌==◌, if◌then◌else◌}
use hogs.Prelude.Fallible.{Result, ok, err}
use hogs.Membership.Identity.{Driver}
use hogs.Membership.File.{Entry, Request, Code, Listing, FileDriver, Node, read_file, edit}

-- The file is replaced by the text of the entries.
replaced : Node → Option String → Result String String → Option Code × Option String
replaced node file (err e) = (some Code.write_failed, file)
replaced node file (ok text) =
    if node.is_replaced then (none, some text) else (some Code.write_failed, file)

-- The state is the one at the start.
same_state :
    Node
    → FileDriver
    → Bool
    → List Entry
    → Option String
    → Result String Bool
    → Option Code × Option String
unfolding replaced
same_state node f running entries file (err e) = (some Code.status_unknown, file)
same_state node f running entries file (ok active) =
    if active && not running
    then (some Code.server_started, file)
    else if running && not active
    then (some Code.server_stopped, file)
    else replaced node file (f.encode entries)

-- The state is read again, the entries are encoded, and the file is replaced: its content then.
write_file : Node → FileDriver → Bool → List Entry → Option String → Option Code × Option String
unfolding same_state
write_file node f running entries file = same_state node f running entries file node.running_again

abbrev mode_of : FileDriver → Bool → String
mode_of f running =
    if not running
    then "offline"
    else if f.changes_require_restart
    then "pending_restart"
    else "online"

listing : FileDriver → Bool → List Entry → Listing
listing f running entries = record { mode = mode_of f running; output = ""; entries = entries }

answer : Listing → Option Code × Option String → Result Code Listing × Option String
answer l (none, file) = (ok l, file)
answer l (some e, file) = (err e, file)

finish :
    Node
    → FileDriver
    → Bool
    → Option String
    → Result Code (List Entry × Bool)
    → Result Code Listing × Option String
unfolding write_file answer listing
finish node f running file (err e) = (err e, file)
finish node f running file (ok (entries, changed)) =
    if changed
    then answer (listing f running (node.sorted entries))
        (write_file node f running (node.sorted entries) file)
    else (ok (listing f running (node.sorted entries)), file)

changed_or_listed :
    Node
    → Driver
    → FileDriver
    → Request
    → Bool
    → Option String
    → Result Code (List Entry)
    → Result Code Listing × Option String
unfolding finish edit listing
changed_or_listed node d f request running file (err e) = (err e, file)
changed_or_listed node d f request running file (ok entries) =
    if request.operation == "list"
    then (ok (listing f running entries), file)
    else finish node f running file (edit d f request entries)

-- `fileWhitelistOperation`
unfoldable pub file_operation :
    Node
    → Driver
    → FileDriver
    → Request
    → Bool
    → Option String
    → Result Code Listing × Option String
unfolding changed_or_listed read_file
file_operation node d f request running file =
    changed_or_listed node d f request running file (read_file node f file)
