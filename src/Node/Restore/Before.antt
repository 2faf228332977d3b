-- ===== src/Node/Restore/Before.antt =====
-- A restore up to its safety snapshot: the service is all that it changes.
use hogs.Prelude.{String, Bool, true, false, List, [], ◌∷◌, ◌==◌, ◌≡◌, refl}
use Prim.Native.String.{◌++◌}
use hogs.Prelude.Fallible.{Result, ok, err}
use hogs.Node.Paths.{FilePath}
use hogs.Node.Steps.{
  fail, Ends, Leaves, never_lem, leaves_lem, bind_lem, or_else_lem, on_lem, attempt-Leaves,
}
use hogs.Node.Host.{Host, Server}
use hogs.Node.Resolve.{backup_paths}
use hogs.Node.Backup.{backup_create, restic_backup}
use hogs.Node.Restore.{Failure, told, failure, stop_running, fail_telling, fail_quietly}
use hogs.Node.Restore.Stage.{take_safety}
use hogs.Node.Calm.{
  IsCalm, KeepsAction, await_state-Leaves, execute_action-Leaves, restart_original-Leaves,
}

module _ {W : Type 0} (host : Host W) (server : Server) where
  -- A failure after the stop is the given one, but for what it tells of the restart.
  abbrev pub IsTold : (W → Type 0) → Failure → Failure → W → Type 0
  IsTold P f g v =
      (g.safety_snapshot_id ≡ f.safety_snapshot_id)
      × (g.rollback_restored ≡ f.rollback_restored)
      × P v

  module _ {P : W → Type 0} (calm : IsCalm host server P) where
    pub fail_quietly-Leaves :
        {A : Type 0} (was_running : Bool) (f : Failure)
        → (was_running ≡ true → KeepsAction host server "start" P)
        → (w : W) → P w
        → Ends {A = A} (λ _ _. ⊥) (IsTold P f) (fail_quietly host server was_running f w)
    unfolding fail_quietly
    fail_quietly-Leaves was_running f starts w h =
        attempt-Leaves _ (λ _. fail f) w
          (restart_original-Leaves host server calm was_running starts w h)
          λ r v k. record { so = (refl, refl, k) }

    pub fail_telling-Leaves :
        {A : Type 0} (was_running : Bool) (f : Failure)
        → (was_running ≡ true → KeepsAction host server "start" P)
        → (w : W) → P w
        → Ends {A = A} (λ _ _. ⊥) (IsTold P f) (fail_telling host server was_running f w)
    unfolding fail_telling told
    fail_telling-Leaves was_running f starts w h =
        attempt-Leaves _ (λ result. fail (told f result)) w
          (restart_original-Leaves host server calm was_running starts w h)
          λ r v k. record { so = (refl, refl, k) }

    pub stop_running-Leaves :
        (was_running : Bool)
        → (was_running ≡ true → KeepsAction host server "start" P)
        → (was_running ≡ true → KeepsAction host server "stop" P)
        → (w : W) → P w
        → Ends (λ _. P) (IsTold P (failure "")) (stop_running host server was_running w)
    unfolding stop_running failure
    stop_running-Leaves false starts stops w h = record { so = h }
    stop_running-Leaves true starts stops w h =
        bind_lem _ _ _
          (or_else_lem _ _ _ (execute_action-Leaves host server calm "stop" (stops refl) w h)
            (λ e v k. record { so = (refl, refl, k) }))
          λ _ v k. or_else_lem _ _ _ (await_state-Leaves host server calm false v k) (λ e u l.
            attempt-Leaves _ (λ _. fail (failure ("wait for service to stop: " ++ e))) u
              (restart_original-Leaves host server calm true starts u l)
              λ r t m. record { so = (refl, refl, m) })

    pub backup_create-Leaves :
        (paths : List FilePath) (tags : List String)
        → ((arguments : List String) (w : W) → P w → P (host.restic server arguments w).1)
        → (w : W) → P w
        → Leaves P (backup_create host server paths tags w)
    unfolding backup_create restic_backup
    backup_create-Leaves paths tags restics w h =
        go (backup_paths (λ p. host.lstat p w) server paths)
      where
        go : (r : Result String (List FilePath)) → Leaves P (restic_backup host server tags r w)
        go (ok resolved) =
            bind_lem _ _ _ (leaves_lem (host.restic server _ w) (restics _ w h))
              λ _ v k. record { so = k }
        go (err e) = record { so = h }

    pub take_safety-Leaves :
        (server_id : String) (was_running : Bool)
        → (was_running ≡ true → KeepsAction host server "start" P)
        → ((arguments : List String) (w : W) → P w → P (host.restic server arguments w).1)
        → (w : W) → P w
        → Ends
            (λ safety v. ((safety == "") ≡ false) × P v)
            (IsTold P (failure ""))
            (take_safety host server server_id was_running w)
    unfolding take_safety failure
    take_safety-Leaves server_id was_running starts restics w h =
        bind_lem _ _ _
          (or_else_lem _ _ _
            (backup_create-Leaves [] ("hogs-pre-restore" ∷ ("hogs-server-" ++ server_id) ∷ [])
              restics w h)
            (λ e v k. never_lem (fail_telling-Leaves was_running _ starts v k)))
          λ safety v k.
            on_lem (safety == "") _ _ _
              (λ _. never_lem (fail_telling-Leaves was_running _ starts v k))
              (λ e. record { so = (e, k) })
