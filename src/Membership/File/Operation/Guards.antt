-- ===== src/Membership/File/Operation/Guards.antt =====
-- When an operation changes the whitelist file.
use hogs.Prelude.{
  String, Bool, true, not, ◌&&◌, ◌||◌, Option, none, some, ◌==◌, ◌≡◌, ◌⊎◌, refl, arith, Bool-cases,
  inl, inr,
}
use hogs.Prelude.Fallible.{Result, ok, err}
use hogs.Membership.Identity.{Driver}
use hogs.Membership.File.{Request, Listing, Commands, FileDriver, Game, Node}
use hogs.Membership.File.Write.Guards.{Safe, file_operation_guard}
use hogs.Membership.File.Operation.{
  is_allowed, by_file, by_commands, with_state, whitelist_operation, supports_commands,
  supports_file,
}

-- The file may be written in this state of the service: it is stopped, or the driver writes the file
-- of a running one.
abbrev pub MayWrite : Option FileDriver → Bool → Type 0
MayWrite none running = ⊥
MayWrite (some f) running = (not running || f.allow_write_while_running) ≡ true

by_file_guard :
    (node : Node) (d : Driver) (f : Option FileDriver) (request : Request) (running : Bool)
    (file : Option String)
    → ((by_file node d f request running file).1 ≡ file)
      ⊎ (MayWrite f running × Safe node running (by_file node d f request running file).0)
unfolding by_file is_allowed
by_file_guard node d none request running file = inl refl
by_file_guard node d (some f) request running file =
    elim (Bool-cases (not (f.path == "") && is_allowed f request running)) [
      | inl e ↦ elim (file_operation_guard node d f request running file) [
        | inl h ↦ inl (rw e h)
        | inr (o, h) ↦ inr (ground (arith, e, o), rw e h)
      ]
      | inr e ↦ inl (rw e refl)
    ]

-- The console's operations leave the file to the game.
by_commands_file :
    (node : Node) (d : Driver) (c : Option Commands) (f : Option FileDriver) (request : Request)
    (file : Option String)
    → (by_commands node d c f request file).1 ≡ file
unfolding by_commands
by_commands_file node d none f request file = refl
by_commands_file node d (some c) f request file = refl

with_state_guard :
    (node : Node) (game : Game) (request : Request) (state : Result String Bool)
    (file : Option String)
    → ((with_state node game request state file).1 ≡ file)
      ⊎ ((running : Bool) × (state ≡ ok running)
          × MayWrite game.file running
          × Safe node running (with_state node game request state file).0)
unfolding with_state
with_state_guard node game request (err e) file = inl refl
with_state_guard node game request (ok running) file =
    elim (Bool-cases (running && supports_commands game.commands)) [
      | inl e ↦ inl (rw e (by_commands_file node game.driver game.commands game.file request file))
      | inr e ↦ elim (by_file_guard node game.driver game.file request running file) [
        | inl h ↦ inl (rw e h)
        | inr (m, h) ↦ inr (running, refl, m, rw e h)
      ]
    ]

-- An operation leaves the whitelist file as it is, or it is answered without an error, the service
-- was in the same state at the start and right before the write, and that state is one in which the
-- driver's file may be written: the service is stopped, or the driver allows it for a running one.
pub whitelist_operation-guarded :
    (node : Node) (game : Game) (request : Request) (file : Option String)
    → ((whitelist_operation node (some game) request file).1 ≡ file)
      ⊎ ((running : Bool) × (node.running ≡ ok running)
          × MayWrite game.file running
          × (node.running_again ≡ ok running)
          × (l : Listing) × ((whitelist_operation node (some game) request file).0 ≡ ok l))
unfolding whitelist_operation
whitelist_operation-guarded node game request file =
    elim (Bool-cases (not (supports_commands game.commands) && not (supports_file game.file))) [
      | inl e ↦ inl (rw e refl)
      | inr e ↦ elim (with_state_guard node game request node.running file) [
        | inl h ↦ inl (rw e h)
        | inr (running, s, m, (a, l, h)) ↦ inr (running, s, m, a, l, rw e h)
      ]
    ]
