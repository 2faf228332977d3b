-- ===== src/Node/Restore/Quiet.antt =====
-- What a restore leaves as it is: a property of the world that no operation but a start changes.
use hogs.Prelude.{String, Bool, true, false, some, List, ◌≡◌, refl, eqb, ltb}
use hogs.Prelude.Fallible.{Result, ok, err}
use hogs.Node.Paths.{FilePath, clean, dir, join}
use hogs.Node.Steps.{
  Ends, Leaves, weaken, never_lem, leaves_lem, bind_lem, then_lem, or_else_lem, on_lem, observe_lem,
  attempt-Leaves,
}
use hogs.Node.Host.{Host, Server}
use hogs.Node.Wait.Rounds.{service_running_state-Leaves}
use hogs.Node.Calm.{IsCalm, KeepsAction, act_and_wait-Leaves, restart_original-Leaves}
use hogs.Node.Restore.{
  Failure, failure, failure_with, restart_original, fail_telling, fail_quietly,
  required_restore_space,
}
use hogs.Node.Restore.Stage.{
  restic_restore_size, run_restic_restore, available_disk_space, is_directory, fill_staging,
  reserve_rollback,
}
use hogs.Node.Restore.Swap.{
  activate, reserve, stop_restored, set_aside, drop_aside, return_original, roll_back,
}
use hogs.Node.Restore.Before.{fail_quietly-Leaves, fail_telling-Leaves}

module _ {W : Type 0} (host : Host W) (server : Server) where
  pub record IsQuiet (P : W → Type 0) : Type 0 where
    pub calm : IsCalm host server P
    pub stops : KeepsAction host server "stop" P
    pub renames : (p q : FilePath) (w : W) → P w → P (host.rename p q w).1
    pub removes : (p : FilePath) (w : W) → P w → P (host.remove p w).1
    pub remove_alls : (p : FilePath) (w : W) → P w → P (host.remove_all p w).1
    pub mkdir_temps :
        (p : FilePath) (prefix : String) (w : W) → P w → P (host.mkdir_temp p prefix w).1
    pub syncs : (p : FilePath) (w : W) → P w → P (host.sync_directory p w).1
    pub free_blocks : (p : FilePath) (w : W) → P w → P (host.free_blocks p w).1
    pub restics : (arguments : List String) (w : W) → P w → P (host.restic server arguments w).1
    pub restic_stats :
        (snapshot : String) (p : FilePath) (w : W)
        → P w
        → P (host.restic_stats server snapshot p w).1
    pub restic_restores :
        (snapshot : String) (p q : FilePath) (w : W)
        → P w
        → P (host.restic_restore server snapshot p q w).1

  -- A failure that names the safety snapshot.
  abbrev pub Names : (W → Type 0) → String → Failure → W → Type 0
  Names P safety f w = (f.safety_snapshot_id ≡ some safety) × P w

  module _ {P : W → Type 0} (quiet : IsQuiet P) (safety : String) (was_running : Bool)
      (starts : was_running ≡ true → KeepsAction host server "start" P) where
    pub quietly_named :
        {A : Type 0} {Q : A → W → Type 0} (f : Failure) (w : W)
        → f.safety_snapshot_id ≡ some safety
        → P w
        → Ends Q (Names P safety) (fail_quietly host server was_running f w)
    quietly_named f w e h = never_lem (
        weaken (λ _ _ k. k) (λ g v k. (cc (e, k.0), k.2))
          (fail_quietly-Leaves host server quiet.calm was_running f starts w h))

    telling_named :
        {A : Type 0} {Q : A → W → Type 0} (f : Failure) (w : W)
        → f.safety_snapshot_id ≡ some safety
        → P w
        → Ends Q (Names P safety) (fail_telling host server was_running f w)
    telling_named f w e h = never_lem (
        weaken (λ _ _ k. k) (λ g v k. (cc (e, k.0), k.2))
          (fail_telling-Leaves host server quiet.calm was_running f starts w h))

    pub fill_staging-Names :
        (snapshot : String) (staging : FilePath) (w : W)
        → P w
        → Ends
            (λ _. P)
            (Names P safety)
            (fill_staging host server snapshot safety was_running staging w)
    unfolding fill_staging restic_restore_size available_disk_space run_restic_restore failure_with
        failure
    fill_staging-Names snapshot staging w h =
        bind_lem _ _ _
          (or_else_lem _ _ _
            (bind_lem _ _ _ (leaves_lem _ (quiet.restic_stats snapshot (clean server.data_dir) w h))
              λ size v k.
                on_lem (eqb size 0) _ _ _ (λ _. record { so = k }) (λ _. record { so = k }))
            (λ e v k. telling_named (failure_with safety e) v refl k))
          λ size v k.
            bind_lem _ _ _
              (or_else_lem _ _ _
                (bind_lem _ _ _ (leaves_lem _ (quiet.free_blocks (dir (clean server.data_dir)) v k))
                  λ blocks u l. record { so = l })
                (λ e u l. quietly_named _ u refl l))
              λ available u l.
                bind_lem {P = λ _. P} _ _ _
                  (on_lem (ltb available (required_restore_space size)) _ _ _
                    (λ _. quietly_named _ u refl l) (λ _. record { so = l }))
                  λ _ t m.
                    bind_lem _ _ _
                      (or_else_lem _ _ _
                        (leaves_lem _
                          (quiet.restic_restores snapshot staging (clean server.data_dir) t m))
                        (λ e s n. telling_named _ s refl n))
                      λ _ s n. observe_lem _ _ _ (
                        on_lem (is_directory (host.lstat (join staging (clean server.data_dir)) s))
                          _ _ _ (λ _. record { so = n }) (λ _. quietly_named _ s refl n))

    pub reserve_rollback-Names :
        (w : W)
        → P w
        → Ends (λ _. P) (Names P safety) (reserve_rollback host server safety was_running w)
    unfolding reserve_rollback failure_with failure
    reserve_rollback-Names w h =
        bind_lem _ _ _
          (or_else_lem _ _ _ (leaves_lem _ (quiet.mkdir_temps (dir (clean server.data_dir)) _ w h))
            (λ e v k. quietly_named _ v refl k))
          λ path v k.
            bind_lem _ _ _
              (or_else_lem _ _ _ (leaves_lem _ (quiet.removes path v k))
                (λ e u l. quietly_named _ u refl l))
              λ _ u l. record { so = l }

    restarts : (w : W) → P w → Leaves P (restart_original host server was_running was_running w)
    restarts w h = restart_original-Leaves host server quiet.calm was_running starts w h

    pub activate-Names :
        (staging rollback_path : FilePath) (w : W)
        → P w
        → Ends
            (λ _. P)
            (Names P safety)
            (activate host server safety was_running staging rollback_path w)
    unfolding activate failure_with failure
    activate-Names staging rollback_path w h =
        bind_lem _ _ _
          (or_else_lem _ _ _
            (leaves_lem _ (quiet.renames (clean server.data_dir) rollback_path w h))
            (λ e v k. quietly_named _ v refl k))
          λ _ v k.
            or_else_lem _ _ _
              (leaves_lem _
                (quiet.renames (join staging (clean server.data_dir)) (clean server.data_dir) v k))
              (λ e u l.
                attempt-Leaves _ _ u
                  (leaves_lem _ (quiet.renames rollback_path (clean server.data_dir) u l))
                  λ undone t m.
                    attempt-Leaves _ _ t (restarts t m) λ restarted s n. record { so = (refl, n) })

    stop_restored-Leaves : (w : W) → P w → Leaves P (stop_restored host server w)
    unfolding stop_restored
    stop_restored-Leaves w h =
        bind_lem _ _ _ (service_running_state-Leaves host P server.unit quiet.calm.shows w h)
          λ running v k.
            on_lem running _ _ _
              (λ _. act_and_wait-Leaves host server quiet.calm "stop" false quiet.stops v k)
              (λ _. record { so = k })

    set_aside-Leaves : (w : W) → P w → Leaves P (set_aside host server w)
    unfolding set_aside reserve
    set_aside-Leaves w h =
        bind_lem _ _ _
          (bind_lem _ _ _ (leaves_lem _ (quiet.mkdir_temps (dir (clean server.data_dir)) _ w h))
            λ path v k.
              then_lem _ _ _ (leaves_lem _ (quiet.removes path v k)) λ _ u l. record { so = l })
          λ path v k.
            then_lem _ _ _ (leaves_lem _ (quiet.renames (clean server.data_dir) path v k))
              λ _ u l. record { so = l }

    drop_aside-Leaves :
        (aside : Result String FilePath) (result : Result String (Unit {0})) (w : W)
        → P w
        → Leaves P (drop_aside host server aside result w)
    unfolding drop_aside
    drop_aside-Leaves (ok path) (ok _) w h = leaves_lem _ (quiet.remove_alls path w h)
    drop_aside-Leaves (ok path) (err _) w h = record { so = h }
    drop_aside-Leaves (err _) result w h = record { so = h }

    pub roll_back-Names :
        (rollback_path : FilePath) (reason : String) (w : W)
        → P w
        → Ends
            (λ _. P)
            (Names P safety)
            (roll_back host server safety was_running rollback_path reason w)
    unfolding roll_back return_original failure_with failure
    roll_back-Names rollback_path reason w h =
        attempt-Leaves _ _ w (stop_restored-Leaves w h) λ _ v k.
          attempt-Leaves _ _ v (set_aside-Leaves v k) λ aside u l.
            attempt-Leaves _ _ u
              (leaves_lem _ (quiet.renames rollback_path (clean server.data_dir) u l))
              λ result t m.
                attempt-Leaves _ _ t (leaves_lem _ (quiet.syncs (dir (clean server.data_dir)) t m))
                  λ _ s n. attempt-Leaves _ _ s (restarts s n) λ restarted r o.
                    attempt-Leaves _ _ r (drop_aside-Leaves aside result r o)
                      λ _ q p. record { so = (refl, p) }
