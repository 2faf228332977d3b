-- ===== src/Node/Restore/Back.antt =====
-- The way back of a restore, by the directories at the entries beside the data directory.
use hogs.Prelude.{
  ℕ, String, Bool, true, false, Option, List, [], ◌∷◌, ◌==◌, All, ◌≡◌, inl, inr, refl, sym, ◌∙◌,
}
use hogs.Prelude.Fallible.{Result, ok, err}
use hogs.Node.Paths.{FilePath, base}
use hogs.Node.Paths.Parts.{IsName}
use hogs.Node.Steps.{
  Outcome, Ends, Leaves, weaken, leaves_lem, bind_lem, then_lem, on_lem, attempt_lem,
  attempt-Leaves,
}
use hogs.Node.Host.{Host, Server}
use hogs.Node.Calm.{restart_original-Leaves, act_and_wait-Leaves}
use hogs.Node.Wait.Rounds.{service_running_state-Leaves}
use hogs.Node.Restore.{failure, failure_with, restart_original, is_safe}
use hogs.Node.Restore.Swap.{
  reserve, stop_restored, set_aside, drop_aside, return_original, roll_back, is_ok,
}
use hogs.Node.Restore.Tree.{live, entry, Tree}
use hogs.Node.Restore.Places.{
  Fact, Holds, IsOther, at_live, at_entry, Same-Holds, outside-Holds, renamed-Holds, entry-live,
  live-IsAt,
}
use hogs.Node.Restore.Stages.{calm-Now, acts-Now}
use hogs.Node.Restore.Moves.{IsReserved, IsKept, mkdir_temp_lem, remove_lem, path_at_entry_lem}

module _ {W : Type 0} (host : Host W) (server : Server) (dir_at : W → FilePath → Option ℕ)
    (HoldsSnapshot : String → ℕ → Type 0) (safe : is_safe (live server) ≡ true)
    (tree : Tree host server dir_at HoldsSnapshot) where
  module _ (safety s : String) (is_name : IsName s) (other : IsOther server safe s)
      (orig staging d : ℕ) (was_running : Bool) (r : String) (free : IsOther server safe r)
      (apart : (s == r) ≡ false) where
    abbrev at_r : List (Fact server safe)
    at_r = at_entry server safe r free orig ∷ []

    abbrev in_place : List (Fact server safe)
    in_place = at_live server safe orig ∷ []

    abbrev both : List (Fact server safe)
    both = at_live server safe d ∷ at_r

    abbrev N : List (Fact server safe) → W → Type 0
    N = Holds server safe dir_at

    -- The name that the failed data has now is not the place of the data.
    abbrev IsAside : Result String FilePath → Type 0
    IsAside (ok p) =
        (name : String) × (p ≡ entry server name) × ((name == base (live server)) ≡ false)
    IsAside (err _) = Unit {0}

    stop_restored-both : (w : W) → N both w → Leaves (N both) (stop_restored host server w)
    unfolding stop_restored
    stop_restored-both w h =
        bind_lem _ _ w
          (service_running_state-Leaves host (N both) server.unit
            (calm-Now host server dir_at HoldsSnapshot safe tree both).shows w h)
          λ running v k.
            on_lem running _ _ v
              (λ _.
                act_and_wait-Leaves host server
                  (calm-Now host server dir_at HoldsSnapshot safe tree both) "stop" false
                  (acts-Now host server dir_at HoldsSnapshot safe tree both "stop") v k)
              (λ _. record { so = k })

    both-places : All (λ f. f.place ≡ entry server f.name) both
    both-places = (sym (entry-live server safe dir_at), (refl, tt))

    set_aside-at_r :
        (w : W)
        → N both w
        → Ends (λ p v. IsAside (ok p) × N at_r v) (λ _. N at_r) (set_aside host server w)
    unfolding set_aside reserve
    set_aside-at_r w h =
        bind_lem {P = λ p. IsReserved host server dir_at HoldsSnapshot safe tree both p} _ _ w
          (bind_lem {P = λ p. IsReserved host server dir_at HoldsSnapshot safe tree both p} _ _ w
            (weaken (λ _ _ k. k.0) (λ _ _ k. k.1)
              (mkdir_temp_lem host server dir_at HoldsSnapshot safe tree both both both-places
                (λ _ k. k) _ w h h))
            λ p v k.
              then_lem {P = λ _. IsReserved host server dir_at HoldsSnapshot safe tree both p} _ _ v
                (weaken (λ _ _ l. l) (λ _ _ l. l.1)
                  (remove_lem host server dir_at HoldsSnapshot safe tree both both both-places
                    (λ _ k. k) p v k))
                λ _ u l. record { so = l })
          λ p v k.
            then_lem {P = λ _ u. IsAside (ok p) × N at_r u} _ _ v
              (weaken
                (λ _ u l. (
                  (k.0, k.1, k.3.0),
                  renamed-Holds server safe dir_at at_r (live server) p _ k.0 v u
                      (live-IsAt server safe)
                      (path_at_entry_lem host server dir_at HoldsSnapshot safe tree both both
                        both-places (λ _ x. x) p k.0 k.1)
                      (free, tt) (k.3.1.0, tt) l.1 k.4.1,
                ))
                (λ _ u l. Same-Holds server safe dir_at at_r v u l k.4.1)
                (tree.renames (live server) p v))
              λ _ u l. record { so = l }

    again :
        (facts : List (Fact server safe)) (w : W)
        → N facts w
        → Leaves (N facts) (restart_original host server was_running was_running w)
    again facts w h =
        restart_original-Leaves host server
          (calm-Now host server dir_at HoldsSnapshot safe tree facts) was_running
          (λ _. acts-Now host server dir_at HoldsSnapshot safe tree facts "start") w h

    no_drop :
        (aside : Result String FilePath) (e : String) (w : W)
        → N at_r w
        → Leaves (N at_r) (drop_aside host server aside (err e) w)
    unfolding drop_aside
    no_drop (ok p) e w h = record { so = h }
    no_drop (err _) e w h = record { so = h }

    drop_aside-in_place :
        (aside : Result String FilePath) (result : Result String (Unit {0})) (w : W)
        → IsAside aside
        → N in_place w
        → Leaves (N in_place) (drop_aside host server aside result w)
    unfolding drop_aside
    drop_aside-in_place (ok p) (ok _) w (name, e, away) h = leaves_lem (host.remove_all p w) (
        outside-Holds server safe dir_at in_place p name w _
          (path_at_entry_lem host server dir_at HoldsSnapshot safe tree both both both-places
            (λ _ x. x) p name e)
          (away, tt) (tree.remove_alls p w) h)
    drop_aside-in_place (ok p) (err _) w k h = record { so = h }
    drop_aside-in_place (err _) result w k h = record { so = h }

    -- From the renaming of the original directory on, which succeeded or failed.
    ended_lem :
        (aside : Result String FilePath) (result : Result String (Unit {0})) (reason : String)
        (w : W)
        → IsAside aside
        → Outcome (λ _. N in_place) (λ _. N at_r) (result, w)
        → Ends {A = Unit {0}}
            (λ _ _. ⊥)
            (IsKept host server dir_at HoldsSnapshot safe tree s orig)
            (return_original host server safety was_running aside result reason w)
    unfolding return_original failure_with failure is_ok
    ended_lem aside (ok _) reason w k h =
        attempt-Leaves _ _ w
          (leaves_lem _ (Same-Holds server safe dir_at in_place w _ (tree.syncs _ w) h))
          λ _ v l. attempt-Leaves _ _ v (again in_place v l) λ restarted u m.
            attempt-Leaves _ _ u (drop_aside-in_place aside (ok tt) u k m)
              λ _ t n. record { so = inl n }
    ended_lem aside (err e) reason w k h =
        attempt-Leaves _ _ w
          (leaves_lem _ (Same-Holds server safe dir_at at_r w _ (tree.syncs _ w) h))
          λ _ v l. attempt-Leaves _ _ v (again at_r v l) λ restarted u m.
            attempt-Leaves _ _ u (no_drop aside e u m)
              λ _ t n. record { so = inr (r, free, apart, n, λ q. cc (q)) }

    aside_lem :
        (aside : Result String FilePath) (w : W)
        → Outcome (λ p v. IsAside (ok p) × N at_r v) (λ _. N at_r) (aside, w)
        → IsAside aside × N at_r w
    aside_lem (ok p) w h = h
    aside_lem (err e) w h = (tt, h)

    pub roll_back-IsKept :
        (reason : String) (w : W)
        → N both w
        → Ends {A = Unit {0}}
            (λ _ _. ⊥)
            (IsKept host server dir_at HoldsSnapshot safe tree s orig)
            (roll_back host server safety was_running (entry server r) reason w)
    unfolding roll_back
    roll_back-IsKept reason w h = attempt-Leaves _ _ w (stop_restored-both w h) λ _ v k.
        attempt_lem _ _ v (set_aside-at_r v k) λ aside u l.
          attempt_lem _ _ u
            (weaken (λ _ t m. (m.0 ∙ (aside_lem aside u l).1.0, tt))
              (λ _ t m. Same-Holds server safe dir_at at_r u t m (aside_lem aside u l).1)
              (tree.renames (entry server r) (live server) u))
            λ result t m. ended_lem aside result reason t (aside_lem aside u l).0 m
