-- ===== src/Node/Tests/Runs.antt =====
-- Runs of a restore on the small host, and what was shown of every restore at one of them.
use hogs.Prelude.{
  List, ◌++◌, All, ℕ, String, Bool, true, false, none, some, [], ◌∷◌, ◌==◌, ◌≡◌, ◌≢◌, ◌⊎◌, refl,
  arith,
}
use hogs.Prelude.Fallible.{Result, ok, err}
use hogs.Node.Paths.{child, strip_prefix, FilePath, clean}
use hogs.Node.Paths.Parts.{IsName}
use hogs.Node.Resolve.{resolve_path}
use hogs.Node.Resolve.Confined.{IsPlain, resolve_path-confined}
use hogs.Node.Steps.{
  Ends, Leaves, ◌>>=◌, ◌>>◌, ◌or_else◌, on◌run◌otherwise◌, ◌deferred◌, attempt, observe,
}
use hogs.Node.Restore.{Failure, Restored}
use hogs.Node.Restore.Run.{restore_snapshot}
use hogs.Node.Host.{Look, found, directory, service_running_state}
use hogs.Node.Wait.{WaitError, out_of_rounds, wait_for_service_state, wait_for_readiness}
use hogs.Node.Wait.Rounds.{wait_for_service_state-wait_for_readiness}
use hogs.Node.Restore.Tree.{live, entry}
use hogs.Node.Restore.Quiet.{IsQuiet}
use hogs.Node.Restore.Kept.{restore_snapshot-kept}
use hogs.Node.Restore.Promises.{IsGuarded, restore_snapshot-unstarted, restore_snapshot-IsGuarded}
use hogs.Node.Update
use hogs.Node.Update.{Updated, update_server}
use hogs.Node.Update.Safety.{IsSaved, update_server-IsSaved}
use hogs.Node.Tests.Laws.{dir_at, HoldsSnapshot, small-Tree}
use hogs.Node.Tests.{World, server, host, world}

program : Unit {0}
unfolding restore_snapshot ◌>>=◌ ◌>>◌ ◌or_else◌ on◌run◌otherwise◌ ◌deferred◌ attempt observe
    strip_prefix child
program = tt

restore : Bool → Bool → Result Failure Restored × World
restore picky running =
    restore_snapshot (host picky) server "game" "0123456789abcdef" "game" (world running)

-- A restore that succeeds, and one whose data the service refuses.
replaced :
    ((restore false true).1.running ≡ true) × ((restore false true).1.files ("srv" ∷ []) ≡ some 2)
unfolding program restore
replaced = (refl, refl)

rolled_back :
    ((restore true true).1.running ≡ true)
    × ((restore true true).1.files ("srv" ∷ []) ≡ some 1)
    × ((restore true true).1.files ("t2" ∷ []) ≡ none)
unfolding program restore
rolled_back = (refl, refl, refl)

stopped : ((restore true false).1.starts ≡ 0) × ((restore true false).1.files ("srv" ∷ []) ≡ some 2)
unfolding program restore
stopped = (refl, refl)

in_place : dir_at (world true) (live server) ≡ some 1
unfolding clean strip_prefix
in_place = refl

not_running : (service_running_state (host true) server.unit (world false)).0 ≡ ok false
unfolding program service_running_state
not_running = refl

restore_snapshot-kept_example :
    Ends
      (λ (r : Restored) v.
        (d : ℕ) × HoldsSnapshot r.snapshot_id d × (dir_at v (live server) ≡ some d))
      (λ (f : Failure) v.
        (dir_at v (live server) ≡ some 1)
        ⊎ ((name : String) × (dir_at v (entry server name) ≡ some 1)
            × (f.rollback_restored ≢ some true)))
      (restore_snapshot (host true) server "game" "0123456789abcdef" "game" (world true))
restore_snapshot-kept_example =
    restore_snapshot-kept (host true) server dir_at HoldsSnapshot (small-Tree true) "game"
      "0123456789abcdef" "game" 1 (world true) in_place

-- No start was counted.
abbrev Unstarted : World → Type 0
Unstarted w = w.starts ≡ 0

quiet : IsQuiet (host true) server Unstarted
quiet = record {
  calm = record { shows = λ w h. h; sleeps = λ pause w h. h; versions = λ w h. h };
  stops = λ w h. h;
  renames = λ p q w h. h;
  removes = λ p w h. h;
  remove_alls = λ p w h. h;
  mkdir_temps = λ p prefix w h. h;
  syncs = λ p w h. h;
  free_blocks = λ p w h. h;
  restics = λ arguments w h. h;
  restic_stats = λ snapshot p w h. h;
  restic_restores = λ snapshot p q w h. h;
}

restore_snapshot-unstarted_example :
    Leaves Unstarted
      (restore_snapshot (host true) server "game" "0123456789abcdef" "game" (world false))
restore_snapshot-unstarted_example =
    restore_snapshot-unstarted (host true) server "game" "0123456789abcdef" "game" (world false)
      quiet refl not_running

-- The files are those of the beginning.
abbrev Untouched : World → Type 0
Untouched w = w.files ≡ (world true).files

restore_snapshot-IsGuarded_example :
    Ends
      (λ (r : Restored) _. (r.safety_snapshot_id == "") ≡ false)
      (IsGuarded (host true) server Untouched)
      (restore_snapshot (host true) server "game" "0123456789abcdef" "game" (world true))
restore_snapshot-IsGuarded_example =
    restore_snapshot-IsGuarded (host true) server "game" "0123456789abcdef" "game" (world true)
      (record { shows = λ w h. h; sleeps = λ pause w h. h; versions = λ w h. h }) (λ w h. h)
      (λ w h. h) (λ arguments w h. h) refl

wait_for_service_state-wait_for_readiness_example :
    Ends
      (λ _ _. Unit {0})
      (λ (e : WaitError) _. e ≢ out_of_rounds)
      (wait_for_service_state (host true) server.unit true (world false))
    × Ends
        (λ _ _. Unit {0})
        (λ (e : WaitError) _. e ≢ out_of_rounds)
        (wait_for_readiness (host true) server (world false))
wait_for_service_state-wait_for_readiness_example =
    wait_for_service_state-wait_for_readiness (host true)
      (record {
        sleeps = λ pause w. omega arith;
        shows = λ unit w. omega arith;
        versions = λ _ w. omega arith;
      })
      server true (world false)

-- A request for mods by a way round.
abbrev around : FilePath
around = record { rooted = false; parts = "world" ∷ ".." ∷ "mods" ∷ [] }

abbrev mods : FilePath
mods = record { rooted = true; parts = "srv" ∷ "mods" ∷ [] }

abbrev plain : FilePath → Look
plain p = found directory

resolved : resolve_path plain server around ≡ ok mods
unfolding resolve_path
resolved = refl

refused :
    resolve_path plain server (record { rooted = false; parts = ".." ∷ "etc" ∷ [] })
    ≡ err "path traversal detected"
unfolding resolve_path
refused = refl

resolve_path-confined_example :
    (names : List String) × (mods.parts ≡ (clean server.data_dir).parts ++ names)
    × All IsName names
    × IsPlain plain (clean server.data_dir) names
resolve_path-confined_example = resolve_path-confined plain server around mods refl resolved

-- An update of a server that runs, and one without its confirmation.
update : String → Result Update.Failure Updated × World
update confirmation = update_server (host false) server "game" confirmation (world true)

updated : ((update "game").1.running ≡ true) × ((update "game").1.starts ≡ 1)
unfolding program update update_server
updated = (refl, refl)

update_server-IsSaved_example :
    Ends
      (λ (r : Updated) _. (r.safety_snapshot_id == "") ≡ false)
      (IsSaved (host true) server Untouched)
      (update_server (host true) server "game" "game" (world true))
update_server-IsSaved_example =
    update_server-IsSaved (host true) server "game" "game" (world true)
      (record { shows = λ w h. h; sleeps = λ pause w h. h; versions = λ w h. h }) (λ w h. h)
      (λ w h. h) (λ arguments w h. h) refl
