-- ===== src/Node/Restore/Service.antt =====
-- A restore of a server that does not run never starts it, and one that fails before its safety
-- snapshot changes no file.
use hogs.Prelude.{String, Bool, true, false, ◌≡◌, refl}
use hogs.Prelude.Fallible.{Result, ok, err}
use hogs.Node.Paths.{FilePath, clean, dir}
use hogs.Node.Steps.{
  Ends, Leaves, leaves_lem, bind_lem, or_else_lem, on_lem, observe_lem, attempt-Leaves,
}
use hogs.Node.Host.{Host, Server}
use hogs.Node.Wait.Rounds.{service_running_state-Leaves}
use hogs.Node.Calm.{
  IsCalm, KeepsAction, await_state-Leaves, execute_action-Leaves, wait_for_readiness-Leaves,
}
use hogs.Node.Restore.Swap.{verify}
use hogs.Node.Restore.Run.{restore_from, swap_in, sync_after}
use hogs.Node.Restore.Quiet.{
  IsQuiet, Names, fill_staging-Names, reserve_rollback-Names, activate-Names, roll_back-Names,
}

module _ {W : Type 0} (host : Host W) (server : Server) where
  module _ {P : W → Type 0} (calm : IsCalm host server P) where
    pub verify-Leaves :
        (b : Bool)
        → (b ≡ true → KeepsAction host server "start" P)
        → (w : W) → P w
        → Leaves P (verify host server b w)
    unfolding verify
    verify-Leaves true starts w h =
        bind_lem _ _ _
          (or_else_lem _ _ _ (execute_action-Leaves host server calm "start" (starts refl) w h)
            (λ _ v k. record { so = k }))
          λ _ v k.
            bind_lem _ _ _
              (or_else_lem _ _ _ (await_state-Leaves host server calm true v k)
                (λ _ u l. record { so = l }))
              λ _ u l.
                or_else_lem _ _ _ (wait_for_readiness-Leaves host server calm u l)
                  (λ _ t m. record { so = m })
    verify-Leaves false starts w h =
        bind_lem _ _ _
          (or_else_lem _ _ _ (service_running_state-Leaves host P server.unit calm.shows w h)
            (λ _ v k. record { so = k }))
          λ running v k. on_lem running _ _ _ (λ _. record { so = k }) (λ _. record { so = k })

  module _ {P : W → Type 0} (quiet : IsQuiet host server P) (was_running : Bool)
      (starts : was_running ≡ true → KeepsAction host server "start" P) where
    sync_after-Leaves :
        (r : Result String (Unit {0})) (w : W) → P w → Leaves P (sync_after host server r w)
    unfolding sync_after
    sync_after-Leaves (ok _) w h = leaves_lem _ (quiet.syncs _ w h)
    sync_after-Leaves (err _) w h = record { so = h }

    pub restore_from-Names :
        (snapshot safety : String) (staging : FilePath) (w : W)
        → P w
        → Ends
            (λ r v. (r.safety_snapshot_id ≡ safety) × P v)
            (Names host server P safety)
            (restore_from host server snapshot safety was_running staging w)
    unfolding restore_from swap_in
    restore_from-Names snapshot safety staging w h =
        bind_lem _ _ _
          (fill_staging-Names host server quiet safety was_running starts snapshot staging w h)
          λ size v k.
            bind_lem _ _ _ (reserve_rollback-Names host server quiet safety was_running starts v k)
              λ rollback_path u l.
                bind_lem _ _ _
                  (activate-Names host server quiet safety was_running starts staging rollback_path
                    u l)
                  λ _ t m.
                    attempt-Leaves _ _ t
                      (leaves_lem _ (quiet.syncs (dir (clean server.data_dir)) t m))
                      λ _ s n.
                        bind_lem _ _ _
                          (or_else_lem _ _ _ (verify-Leaves quiet.calm was_running starts s n)
                            (λ reason r o.
                              roll_back-Names host server quiet safety was_running starts
                                rollback_path reason r o))
                          λ _ r o.
                            attempt-Leaves _ _ r
                              (leaves_lem _ (quiet.remove_alls rollback_path r o))
                              λ removed q p.
                                attempt-Leaves _ _ q (sync_after-Leaves removed q p)
                                  λ _ x y. observe_lem _ _ _ (record { so = (refl, y) })
