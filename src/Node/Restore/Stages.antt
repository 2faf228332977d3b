-- ===== src/Node/Restore/Stages.antt =====
-- The stages of a restore, by the directories at the entries beside the data directory.
use Prim.Native.String.{◌++◌}
use hogs.Prelude.{
  ℕ, String, Bool, true, Option, some, List, [], ◌∷◌, ◌≡◌, ◌⊎◌, inl, inr, refl, sym, ◌∙◌, eqb, ltb,
  contradicts,
}
use hogs.Node.Paths.{FilePath, join, dir, base}
use hogs.Node.Paths.Parts.{IsName, Outside}
use hogs.Node.Steps.{
  Ends, weaken, never_lem, leaves_lem, bind_lem, or_else_lem, on_lem, observe_lem,
}
use hogs.Node.Host.{Host, Server, Kind, Look, found, directory, missing, unseen}
use hogs.Node.Calm.{IsCalm, KeepsAction}
use hogs.Node.Restore.{
  Failure, failure, failure_with, fail_quietly, fail_telling, is_safe, required_restore_space,
}
use hogs.Node.Restore.Stage.{
  restic_restore_size, run_restic_restore, available_disk_space, is_directory, fill_staging,
}
use hogs.Node.Restore.Before.{IsTold, fail_quietly-Leaves, fail_telling-Leaves}
use hogs.Node.Restore.Tree.{live, entry, IsBeside, Tree}
use hogs.Node.Restore.Places.{
  Fact, Holds, IsOther, at_live, at_entry, at_staged, Same-Holds, live-IsAt, entry-IsAt, apart_sym,
  outside_lem,
}

module _ {W : Type 0} (host : Host W) (server : Server) (dir_at : W → FilePath → Option ℕ)
    (HoldsSnapshot : String → ℕ → Type 0) (safe : is_safe (live server) ≡ true)
    (tree : Tree host server dir_at HoldsSnapshot) where
  abbrev Now : List (Fact server safe) → W → Type 0
  Now = Holds server safe dir_at

  pub calm-Now : (facts : List (Fact server safe)) → IsCalm host server (Now facts)
  calm-Now facts = record {
    shows = λ w. Same-Holds server safe dir_at facts w _ (tree.shows w);
    sleeps = λ pause w. Same-Holds server safe dir_at facts w _ (tree.sleeps pause w);
    versions = λ w. Same-Holds server safe dir_at facts w _ (tree.versions w);
  }

  pub acts-Now :
      (facts : List (Fact server safe)) (verb : String) → KeepsAction host server verb (Now facts)
  acts-Now facts verb w = Same-Holds server safe dir_at facts w _ (tree.acts verb w)

  module _ (facts : List (Fact server safe)) (was_running : Bool) where
    pub quietly_lem :
        {A : Type 0} {Q : A → W → Type 0} (f : Failure) (w : W)
        → Now facts w
        → Ends Q (IsTold host server (Now facts) f) (fail_quietly host server was_running f w)
    quietly_lem f w h = never_lem (
        fail_quietly-Leaves host server (calm-Now facts) was_running f (λ _. acts-Now facts "start")
          w h)

    pub telling_lem :
        {A : Type 0} {Q : A → W → Type 0} (f : Failure) (w : W)
        → Now facts w
        → Ends Q (IsTold host server (Now facts) f) (fail_telling host server was_running f w)
    telling_lem f w h = never_lem (
        fail_telling-Leaves host server (calm-Now facts) was_running f (λ _. acts-Now facts "start")
          w h)

  -- The staging directory filled: the restored data has the snapshot's.
  module _ (snapshot safety s : String) (is_name : IsName s) (other : IsOther server safe s)
      (orig staging : ℕ) (was_running : Bool) where
    abbrev before : List (Fact server safe)
    before = at_live server safe orig ∷ at_entry server safe s other staging ∷ []

    abbrev IsFilled : W → Type 0
    IsFilled w =
        (d : ℕ) × HoldsSnapshot snapshot d
        × Now (at_staged server safe s is_name other d ∷ before) w

    is_directory_lem : (look : Look) → is_directory look ≡ true → look ≡ found directory
    unfolding is_directory
    is_directory_lem (found directory) e = refl
    is_directory_lem (found Kind.regular) e = absurd (contradicts (sym e))
    is_directory_lem (found Kind.symlink) e = absurd (contradicts (sym e))
    is_directory_lem (found Kind.irregular) e = absurd (contradicts (sym e))
    is_directory_lem missing e = absurd (contradicts (sym e))
    is_directory_lem (unseen x) e = absurd (contradicts (sym e))

    -- What restic's restore leaves in place.
    kept_by_restic :
        (w v : W)
        → ((q : FilePath)
            → IsBeside server q
            → (q ≡ entry server s) ⊎ Outside q (entry server s)
            → dir_at v q ≡ dir_at w q)
        → Now before w
        → Now before v
    kept_by_restic w v same h = (
      same (live server) (inl refl) (
            inr (
              outside_lem server safe (live server) (entry server s) (base (live server)) s
                (live-IsAt server safe) (entry-IsAt server safe s)
                (apart_sym (base (live server)) s other)))
          ∙ h.0,
      (same (entry server s) (at_entry server safe s other staging).beside (inl refl) ∙ h.1.0, tt),
    )

    pub fill_staging-IsFilled :
        (w : W)
        → Now before w
        → Ends
            (λ _. IsFilled)
            (IsTold host server (Now before) (failure_with safety ""))
            (fill_staging host server snapshot safety was_running (entry server s) w)
    unfolding fill_staging restic_restore_size available_disk_space run_restic_restore failure_with
        failure
    fill_staging-IsFilled w h =
        bind_lem {P = λ _. Now before} _ _ w
          (or_else_lem {P = λ _. Now before} _ _ w
            (bind_lem {P = λ _. Now before} _ _ w
              (leaves_lem _ (
                Same-Holds server safe dir_at before w _
                  (tree.restic_stats snapshot (live server) w) h))
              λ size v k.
                on_lem (eqb size 0) _ _ v (λ _. record { so = k }) (λ _. record { so = k }))
            (λ e v k. telling_lem before was_running (failure_with safety e) v k))
          λ size v k.
            bind_lem {P = λ _. Now before} _ _ v
              (or_else_lem {P = λ _. Now before} _ _ v
                (bind_lem {P = λ _. Now before} _ _ v
                  (leaves_lem _ (
                    Same-Holds server safe dir_at before v _
                      (tree.free_blocks (dir (live server)) v) k))
                  λ blocks u l. record { so = l })
                (λ e u l.
                  quietly_lem before was_running
                    (failure_with safety ("inspect restore disk space: " ++ e)) u l))
              λ available u l.
                bind_lem {P = λ _. Now before} _ _ u
                  (on_lem (ltb available (required_restore_space size)) _ _ u
                    (λ _. weaken (λ _ _ x. x) (λ _ _ x. x) (quietly_lem before was_running _ u l))
                    (λ _. record { so = l }))
                  λ _ t m.
                    bind_lem
                      {P = λ _ x.
                        Now before x
                        × ((d : ℕ)
                            → dir_at x (join (entry server s) (live server)) ≡ some d
                            → HoldsSnapshot snapshot d)}
                      _ _ t
                      (or_else_lem {P = λ _. Now before} _ _ t
                        (weaken (λ _ x n. (kept_by_restic t x n.1 m, n.0))
                          (λ _ x n. kept_by_restic t x n m) (tree.restores snapshot s t is_name))
                        (λ e x n. telling_lem before was_running (failure_with safety e) x n))
                      λ _ x n. observe_lem _ _ x (
                        on_lem (is_directory (host.lstat (join (entry server s) (live server)) x)) _
                          _ x
                          (λ b.
                            let seen = tree.looks _ x (is_directory_lem _ b) in
                            record { so = (seen.0, n.1 seen.0 seen.1, (seen.1, n.0)) })
                          (λ _. quietly_lem before was_running _ x n.0))
