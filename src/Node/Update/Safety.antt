-- ===== src/Node/Update/Safety.antt =====
-- The update unit runs only after a safety snapshot of the server was named.
use hogs.Prelude.{
  String, Bool, true, false, not, none, some, List, [], ◌∷◌, ◌==◌, ◌≡◌, ◌⊎◌, inl, inr, refl, ◌&&◌,
  if◌then◌else◌,
}
use hogs.Prelude.Fallible.{Result, err}
use Prim.Native.String.{◌++◌}
use hogs.Node.Steps.{
  fail, Ends, Leaves, weaken, leaves_lem, bind_lem, then_lem, or_else_lem, on_lem, observe_lem,
  computed_lem, attempt-Leaves,
}
use hogs.Node.Host.{Host, Server}
use hogs.Node.Wait.Rounds.{service_running_state-Leaves}
use hogs.Node.Calm.{
  IsCalm, KeepsAction, await_state-Leaves, execute_action-Leaves, wait_for_readiness-Leaves,
}
use hogs.Node.Restore.Before.{backup_create-Leaves}
use hogs.Node.Update.{
  Failure, update_failure, check_update, with_restart, start_original, fail_with_restart,
  stop_for_update, take_update_safety, state_after, run_update, update_server,
}

module _ {W : Type 0} (host : Host W) (server : Server) where
  -- Failed without a safety snapshot, with what was kept unchanged and no update claimed.
  abbrev pub IsUnsaved : (W → Type 0) → Failure → W → Type 0
  IsUnsaved P f w = (f.safety_snapshot_id ≡ none) × (f.updated ≡ false) × P w

  -- Or with the safety snapshot named.
  abbrev pub IsSaved : (W → Type 0) → Failure → W → Type 0
  IsSaved P f w =
      IsUnsaved P f w
      ⊎ ((safety : String) × (f.safety_snapshot_id ≡ some safety) × ((safety == "") ≡ false))

  module _ {P : W → Type 0} (calm : IsCalm host server P)
      (starts : KeepsAction host server "start" P) where
    start_original-Leaves :
        (was_running : Bool) (w : W)
        → P w
        → Leaves P (start_original host server was_running was_running w)
    unfolding start_original
    start_original-Leaves was_running w h =
        on_lem (was_running && was_running) _ _ w
          (λ _. then_lem _ _ w (execute_action-Leaves host server calm "start" starts w h) λ _ v k.
            then_lem _ _ v (await_state-Leaves host server calm true v k) λ _ u l.
              or_else_lem _ _ u (wait_for_readiness-Leaves host server calm u l)
                (λ e t m. record { so = m }))
          (λ _. record { so = h })

    fail_with_restart-Leaves :
        {A : Type 0} {Q : A → W → Type 0} (was_running : Bool) (f : Failure) (w : W)
        → P w
        → Ends Q
            (λ g v. (g.safety_snapshot_id ≡ f.safety_snapshot_id) × (g.updated ≡ f.updated) × P v)
            (fail_with_restart host server was_running f w)
    unfolding fail_with_restart with_restart
    fail_with_restart-Leaves was_running f w h =
        attempt-Leaves _ (λ result. fail (with_restart f result)) w
          (start_original-Leaves was_running w h) λ result v k. record { so = (refl, refl, k) }

    stop_for_update-Leaves :
        (was_running : Bool)
        → KeepsAction host server "stop" P
        → (w : W) → P w
        → Ends (λ _. P) (IsUnsaved P) (stop_for_update host server was_running w)
    unfolding stop_for_update update_failure
    stop_for_update-Leaves false stops w h = record { so = h }
    stop_for_update-Leaves true stops w h =
        bind_lem {P = λ _. P} _ _ w
          (or_else_lem {P = λ _. P} _ _ w (execute_action-Leaves host server calm "stop" stops w h)
            (λ e v k. record { so = (refl, refl, k) }))
          λ _ v k.
            or_else_lem {P = λ _. P} _ _ v (await_state-Leaves host server calm false v k) (λ e u l.
              fail_with_restart-Leaves true (update_failure ("wait for service to stop: " ++ e)) u
                l)

    take_update_safety-Leaves :
        (server_id : String) (was_running : Bool)
        → ((arguments : List String) (w : W) → P w → P (host.restic server arguments w).1)
        → (w : W) → P w
        → Ends
            (λ safety v. ((safety == "") ≡ false) × P v)
            (IsUnsaved P)
            (take_update_safety host server server_id was_running w)
    unfolding take_update_safety update_failure
    take_update_safety-Leaves server_id was_running restics w h =
        bind_lem {P = λ _. P} _ _ w
          (or_else_lem {P = λ _. P} _ _ w
            (backup_create-Leaves host server calm []
              ("hogs-pre-update" ∷ ("hogs-server-" ++ server_id) ∷ []) restics w h)
            (λ e v k.
              fail_with_restart-Leaves was_running
                (update_failure ("create pre-update safety snapshot: " ++ e)) v k))
          λ safety v k.
            on_lem (safety == "") _ _ v
              (λ _.
                fail_with_restart-Leaves was_running
                  (update_failure "pre-update safety snapshot did not return an ID") v k)
              (λ e. record { so = (e, k) })

  anything : IsCalm host server (λ _. Unit {0})
  anything = record { shows = λ _ _. tt; sleeps = λ _ _ _. tt; versions = λ _ _. tt }

  run_update-named :
      (was_running : Bool) (safety : String) (w : W)
      → Ends
          (λ r _. r.safety_snapshot_id ≡ safety)
          (λ f _. f.safety_snapshot_id ≡ some safety)
          (run_update host server was_running safety w)
  unfolding run_update update_failure
  run_update-named was_running safety w =
      bind_lem {P = λ _ _. Unit {0}} _ _ w
        (or_else_lem {P = λ _ _. Unit {0}} _ _ w (leaves_lem {P = λ _. Unit {0}} _ tt) (λ e v _.
          weaken (λ _ _ k. k) (λ _ _ k. k.0)
            (fail_with_restart-Leaves anything (λ _ _. tt) was_running
              (record (update_failure ("run update: " ++ e.1)) {
                safety_snapshot_id = some safety;
                output = some e.0;
              })
              v tt)))
        λ output v _. observe_lem _ _ v (
          bind_lem {P = λ _ _. Unit {0}} _ _ v
            (or_else_lem {P = λ _ _. Unit {0}} _ _ v
              (start_original-Leaves anything (λ _ _. tt) was_running v tt)
              (λ e u _. record { so = refl }))
            λ _ u _.
              attempt-Leaves _ _ u
                (leaves_lem {P = λ _. Unit {0}} (state_after host server was_running u) tt)
                λ running t _. record { so = refl })

  refused_lem :
      (P : W → Type 0) (f : Failure) (later : Result Failure (Unit {0})) (b : Bool) (w : W)
      → IsUnsaved P f w
      → Ends (λ _. P) (IsUnsaved P) (later, w)
      → Ends (λ _. P) (IsUnsaved P) (if b then err f else later, w)
  refused_lem P f later true w h k = record { so = h }
  refused_lem P f later false w h k = k

  check_update-Leaves :
      (P : W → Type 0) (server_id confirmation : String) (w : W)
      → P w
      → Ends (λ _. P) (IsUnsaved P) (check_update server_id server confirmation, w)
  unfolding check_update update_failure
  check_update-Leaves P server_id confirmation w h =
      refused_lem P _ _ (server.update_unit == "") w (refl, refl, h)
        (refused_lem P _ _ (not (confirmation == server_id)) w (refl, refl, h) (record { so = h }))

  unsaved :
      {A : Type 0} (P : W → Type 0) {Q : A → W → Type 0} {r : Result Failure A × W}
      → Ends Q (IsUnsaved P) r
      → Ends Q (IsSaved P) r
  unsaved P h = weaken (λ _ _ k. k) (λ _ _ k. inl k) h

  -- A property that the questions to systemd and the game, the start and the stop of the service and
  -- the backup by restic leave as it is, but perhaps not the update unit, holds after an update that fails
  -- without naming a safety snapshot, and that failure does not claim an update; the
  -- others name a snapshot that is not empty, and so does a success.
  pub update_server-IsSaved :
      {P : W → Type 0} (server_id confirmation : String) (w : W)
      → IsCalm host server P
      → KeepsAction host server "start" P
      → KeepsAction host server "stop" P
      → ((arguments : List String) (w : W) → P w → P (host.restic server arguments w).1)
      → P w
      → Ends
          (λ r _. (r.safety_snapshot_id == "") ≡ false)
          (IsSaved P)
          (update_server host server server_id confirmation w)
  unfolding update_server update_failure
  update_server-IsSaved {P} server_id confirmation w calm starts stops restics h =
      computed_lem _ _ w (unsaved P (check_update-Leaves P server_id confirmation w h)) λ _ _.
        bind_lem {P = λ _. P} _ _ w
          (or_else_lem {P = λ _. P} _ _ w
            (service_running_state-Leaves host P server.unit calm.shows w h)
            (λ e v k. record { so = inl (refl, refl, k) }))
          λ was_running v k.
            bind_lem _ _ v (unsaved P (stop_for_update-Leaves calm starts was_running stops v k))
              λ _ u l.
                bind_lem _ _ u
                  (unsaved P
                    (take_update_safety-Leaves calm starts server_id was_running restics u l))
                  λ safety t m.
                    weaken (λ r _ n. cc (n, m.0)) (λ f _ n. inr (safety, n, m.0))
                      (run_update-named was_running safety t)
