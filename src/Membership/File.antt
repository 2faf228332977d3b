-- ===== src/Membership/File.antt =====
-- cmd/hogs-agent/whitelist.go: the agent's part, which lists, adds and removes the entries of a game
-- server's whitelist, by commands to the running game or in its file. What systemd, the console and
-- the file system answer to one request is given, as are a driver's functions; a driver whose
-- functions are nil is one without commands or without a file.
pub mod Write
pub mod Operation
pub mod Edits
mod Tests
use hogs.Prelude.{
  ℕ, String, Bool, true, false, not, ◌&&◌, ◌||◌, Option, none, some, List, [], ◌∷◌, ◌==◌, all, any,
  keep, map, eqb, leb, if◌then◌else◌,
}
use hogs.Prelude.Text.{codes, equal_fold}
use hogs.Prelude.Fallible.{Result, ok, err, ◌>>=◌}
use hogs.Membership.Identity.{Driver, identities_equal}
use Prim.Native.String.{◌++◌}

pub record Entry : Type 0 where
  pub uuid : String
  pub name : String

pub record Request : Type 0 where
  pub operation : String
  pub username : String
  pub previous_username : String
  pub external_id : String

-- The codes of `WhitelistError`, without the messages.
pub data Code : Type 0 where
  unsupported status_unknown online_unsupported offline_unsupported invalid_identity : Code
  invalid_operation rcon_failed read_failed identity_required server_stopped server_started : Code
  write_failed : Code

pub record Listing : Type 0 where
  pub mode : String
  pub output : String
  pub entries : List Entry

pub record Commands : Type 0 where
  pub list_command : String
  pub add_command : String → String
  pub remove_command : String → String
  pub parse_list : Option (String → List String)

-- `build_entry` fails for want of an external identity, or otherwise.
pub data BuildError : Type 0 where
  external_identity_required other : BuildError

pub record FileDriver : Type 0 where
  pub path : String
  pub allow_read_while_running : Bool
  pub allow_write_while_running : Bool
  pub changes_require_restart : Bool
  pub decode : String → Result String (List Entry)
  pub encode : List Entry → Result String String
  pub build_entry : Option (String → String → Result BuildError Entry)

pub record Game : Type 0 where
  pub driver : Driver
  pub commands : Option Commands
  pub file : Option FileDriver

-- What the node answers: whether the service runs, at the start and before the write, the console,
-- whether the path is one of the server's and can be read, whether each step of replacing the file
-- succeeds, the file after the commands, `strings.TrimSpace`, and `sort.Slice`.
pub record Node : Type 0 where
  pub running : Result String Bool
  pub running_again : Result String Bool
  pub execute : String → Result String String
  pub is_readable : Bool
  pub is_replaced : Bool
  pub file_after : Option String
  pub trimmed : String → String
  pub sorted : List Entry → List Entry

-- `unicode.IsSpace`
is_space : ℕ → Bool
is_space c =
    leb 9 c && leb c 13
    || any (eqb c) (32 ∷ 133 ∷ 160 ∷ 5760 ∷ 8232 ∷ 8233 ∷ 8239 ∷ 8287 ∷ 12288 ∷ [])
    || leb 8192 c && leb c 8202

is_blank : String → Bool
unfolding is_space
is_blank text = all is_space (codes text)

unfoldable pub decoded : FileDriver → String → Result Code (List Entry)
unfolding is_blank
decoded f text =
    if is_blank text
    then ok []
    else elim (f.decode text) [ ok entries ↦ ok entries | err e ↦ err Code.read_failed ]

-- `readFileWhitelist`
unfoldable pub read_file : Node → FileDriver → Option String → Result Code (List Entry)
unfolding decoded
read_file node f none = if node.is_readable then ok [] else err Code.read_failed
read_file node f (some text) = if node.is_readable then decoded f text else err Code.read_failed

unfoldable pub without : Driver → String → List Entry → List Entry
unfolding identities_equal
without d name entries = keep (λ e. not (identities_equal d e.name name)) entries

unfoldable pub has : Driver → String → List Entry → Bool
unfolding identities_equal
has d name entries = any (λ e. identities_equal d e.name name) entries

same_entry : Entry → Entry → Bool
same_entry a b = a.uuid == b.uuid && a.name == b.name

-- Is an entry the one to replace?
unfoldable pub is_place : Driver → String → Entry → Entry → Bool
unfolding identities_equal
is_place d username entry e =
    identities_equal d e.name username || not (entry.uuid == "") && equal_fold e.uuid entry.uuid

-- The loop that replaces an entry, and the append where there is none; whether that changes anything.
unfoldable pub put : Driver → String → Entry → List Entry → List Entry × Bool
unfolding is_place same_entry
put d username entry [] = (entry ∷ [], true)
put d username entry (e ∷ entries) =
    let (rest, changed) = put d username entry entries in
    if is_place d username entry e
    then (entry ∷ entries, not (same_entry e entry))
    else (e ∷ rest, changed)

unfoldable pub built : FileDriver → Request → Result Code Entry
built f request = elim f.build_entry [
  | none ↦ ok (record { uuid = request.external_id; name = request.username })
  | some build ↦ elim (build request.username request.external_id) [
    | ok entry ↦ ok entry
    | err e ↦ elim e [
      | external_identity_required ↦ err Code.identity_required
      | other ↦ err Code.invalid_identity
    ]
  ]
]

pub replaces_previous : Driver → Request → Bool
unfolding identities_equal
replaces_previous d request =
    not (request.previous_username == "")
    && not (identities_equal d request.previous_username request.username)

added : Driver → Request → List Entry → Entry → List Entry × Bool
unfolding put without has replaces_previous
added d request entries entry =
    if replaces_previous d request
    then (let (result, changed) =
          put d request.username entry (without d request.previous_username entries) in
        (result, has d request.previous_username entries || changed))
    else put d request.username entry entries

-- The entries after a change, and whether they are others.
unfoldable pub edit : Driver → FileDriver → Request → List Entry → Result Code (List Entry × Bool)
unfolding built added without has
edit d f request entries =
    if not (request.operation == "add") && not (request.operation == "remove")
    then err Code.invalid_operation
    else if not (d.is_valid request.username)
    then err Code.invalid_identity
    else if request.operation == "remove"
    then ok (without d request.username entries, has d request.username entries)
    else built f request >>= λ entry. ok (added d request entries entry)
