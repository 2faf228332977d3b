-- ===== src/Node/Restore/Kept.antt =====
-- A restore never loses the data: in the end the place of the data holds the snapshot's, or the
-- directory from before is still there.
use hogs.Prelude.{
  ℕ, String, Bool, true, false, not, Option, some, List, [], ◌∷◌, ◌==◌, ◌≡◌, ◌≢◌, ◌⊎◌, inl, inr,
  refl, sym, ◌∙◌, if◌then◌else◌,
}
use Prim.Native.String.{◌++◌}
use hogs.Prelude.Fallible.{Result, ok, err}
use hogs.Node.Paths.{FilePath, base}
use hogs.Node.Paths.Parts.{IsName}
use hogs.Node.Steps.{
  Ends, Leaves, weaken, never_lem, leaves_lem, bind_lem, or_else_lem, observe_lem, computed_lem,
  deferred_lem, attempt-Leaves, ◌deferred◌,
}
use hogs.Node.Host.{Host, Server}
use hogs.Node.Calm.{IsCalm, KeepsAction}
use hogs.Node.Wait.Rounds.{service_running_state-Leaves}
use hogs.Node.Restore.{Failure, Restored, failure_with, is_snapshot_id, is_safe}
use hogs.Node.Restore.Run.{
  check_request, sync_after, swap_in, restore_from, after_state, restore_snapshot,
}
use hogs.Node.Restore.Before.{stop_running-Leaves, take_safety-Leaves}
use hogs.Node.Restore.Service.{verify-Leaves}
use hogs.Node.Restore.Promises.{check_live-Refuses}
use hogs.Node.Restore.Tree.{live, entry, Tree}
use hogs.Node.Restore.Places.{
  Fact, Holds, IsOther, at_live, at_entry, at_staged, Same-Holds, outside-Holds, entry-live,
  entry-IsAt, apart_sym,
}
use hogs.Node.Restore.Stages.{calm-Now, acts-Now, quietly_lem, fill_staging-IsFilled}
use hogs.Node.Restore.Moves.{IsKept, mkdir_temp_lem, reserve_rollback-IsReserved, activate-swapped}
use hogs.Node.Restore.Back.{roll_back-IsKept}

module _ {W : Type 0} (host : Host W) (server : Server) (dir_at : W → FilePath → Option ℕ)
    (HoldsSnapshot : String → ℕ → Type 0) (tree : Tree host server dir_at HoldsSnapshot) where
  module _ (safe : is_safe (live server) ≡ true) (orig : ℕ) (was_running : Bool) where
    abbrev N : List (Fact server safe) → W → Type 0
    N = Holds server safe dir_at

    sync_after-N :
        (facts : List (Fact server safe)) (r : Result String (Unit {0})) (w : W)
        → N facts w
        → Leaves (N facts) (sync_after host server r w)
    unfolding sync_after
    sync_after-N facts (ok _) w h =
        leaves_lem _ (Same-Holds server safe dir_at facts w _ (tree.syncs _ w) h)
    sync_after-N facts (err _) w h = record { so = h }

    module _ (snapshot safety s : String) (is_name : IsName s) (other : IsOther server safe s)
        (staging : ℕ) where
      abbrev start : List (Fact server safe)
      start = at_live server safe orig ∷ at_entry server safe s other staging ∷ []

      abbrev IsPlaced : Restored → W → Type 0
      IsPlaced r v = (d : ℕ) × HoldsSnapshot r.snapshot_id d × N (at_live server safe d ∷ []) v

      abbrev K : Failure → W → Type 0
      K = IsKept host server dir_at HoldsSnapshot safe tree s orig

      -- From the renames on, with the original to be put at the entry r.
      swap_in-kept :
          (d size : ℕ) (r : String) (free : IsOther server safe r)
          → (s == r) ≡ false
          → HoldsSnapshot snapshot d
          → (w : W) → N (at_staged server safe s is_name other d ∷ start) w
          → Ends IsPlaced K (
              swap_in host server snapshot safety was_running
                (entry server s)
                size
                (entry server r)
                w)
      unfolding swap_in
      swap_in-kept d size r free apart holds w h =
          bind_lem _ _ w
            (activate-swapped host server dir_at HoldsSnapshot safe tree snapshot safety s is_name
              other orig staging d was_running r free apart w h)
            λ _ v k.
              attempt-Leaves _ _ v
                (leaves_lem _ (Same-Holds server safe dir_at both v _ (tree.syncs _ v) k))
                λ _ u l.
                  bind_lem {P = λ _. N both} _ _ u
                    (or_else_lem {P = λ _. N both} _ _ u
                      (verify-Leaves host server
                        (calm-Now host server dir_at HoldsSnapshot safe tree both) was_running
                        (λ _. acts-Now host server dir_at HoldsSnapshot safe tree both "start") u l)
                      (λ reason t m. never_lem (
                        roll_back-IsKept host server dir_at HoldsSnapshot safe tree safety s is_name
                          other orig staging d was_running r free apart reason t m)))
                    λ _ t m.
                      attempt-Leaves _ _ t
                        (leaves_lem _ (
                          outside-Holds server safe dir_at placed (entry server r) r t _
                            (entry-IsAt server safe r) (apart_sym (base (live server)) r free, tt)
                            (tree.remove_alls (entry server r) t) (m.0, tt)))
                        λ removed x n.
                          attempt-Leaves _ _ x (sync_after-N placed removed x n)
                            λ _ y o. observe_lem _ _ y (record { so = (d, holds, o) })
        where
          placed : List (Fact server safe)
          placed = at_live server safe d ∷ []

          both : List (Fact server safe)
          both = at_live server safe d ∷ at_entry server safe r free orig ∷ []

      restore_from-kept :
          (w : W)
          → N start w
          → Ends IsPlaced K
              (restore_from host server snapshot safety was_running (entry server s) w)
      unfolding restore_from
      restore_from-kept w h =
          bind_lem _ _ w
            (weaken (λ _ _ k. k) (λ _ _ k. inl (k.2.0, tt))
              (fill_staging-IsFilled host server dir_at HoldsSnapshot safe tree snapshot safety s
                is_name other orig staging was_running w h))
            λ size v (d, holds, k).
              bind_lem _ _ v
                (weaken (λ _ _ l. l) (λ _ _ l. inl (l.2.1.0, tt))
                  (reserve_rollback-IsReserved host server dir_at HoldsSnapshot safe tree snapshot
                    safety s is_name other orig staging d was_running v k))
                λ p u (r, e, named, free, l). rw e (
                  swap_in-kept d size r (apart_sym r (base (live server)) free.1.0)
                    (apart_sym r s free.0) holds u l)

  -- The failure of a restore whose data was not lost.
  abbrev pub IsRecovered : ℕ → Failure → W → Type 0
  IsRecovered orig f v =
      (dir_at v (live server) ≡ some orig)
      ⊎ ((name : String) × (dir_at v (entry server name) ≡ some orig)
          × (f.rollback_restored ≢ some true))

  abbrev pub IsReplaced : Restored → W → Type 0
  IsReplaced r v = (d : ℕ) × HoldsSnapshot r.snapshot_id d × (dir_at v (live server) ≡ some d)

  module _ (safe : is_safe (live server) ≡ true) (orig : ℕ) where
    abbrev before : List (Fact server safe)
    before = at_live server safe orig ∷ []

    -- The removal of the staging directory leaves both where they are.
    removed_lem :
        (s : String)
        → (s == base (live server)) ≡ false
        → (f : Failure) (v : W) → IsKept host server dir_at HoldsSnapshot safe tree s orig f v
        → IsRecovered orig f (host.remove_all (entry server s) v).1
    removed_lem s away f v (inl k) =
        inl
          (outside-Holds server safe dir_at before (entry server s) s v _ (entry-IsAt server safe s)
            (away, tt) (tree.remove_alls (entry server s) v) k).0
    removed_lem s away f v (inr (r, free, apart, k, told)) = inr (
      r,
      (outside-Holds server safe dir_at (at_entry server safe r free orig ∷ []) (entry server s) s v
          _ (entry-IsAt server safe s) (apart, tt) (tree.remove_alls (entry server s) v) k).0,
      told,
    )

    -- From the new staging directory on, and its removal at the end.
    staged_lem :
        (was_running : Bool) (snapshot safety s : String) (is_name : IsName s)
        → (s == base (live server)) ≡ false
        → (staging : ℕ) (w : W) → dir_at w (live server) ≡ some orig
        → dir_at w (entry server s) ≡ some staging
        → Ends IsReplaced (IsRecovered orig) (
            (restore_from host server snapshot safety was_running (entry server s)
                deferred host.remove_all (entry server s))
              w)
    staged_lem was_running snapshot safety s is_name away staging w h k =
        deferred_lem _ _ w
          (restore_from-kept safe orig was_running snapshot safety s is_name
            (apart_sym s (base (live server)) away) staging w (h, (k, tt)))
          (λ r v (d, holds, l). (
            d,
            holds,
            (outside-Holds server safe dir_at (at_live server safe d ∷ []) (entry server s) s v _
                (entry-IsAt server safe s) (away, tt) (tree.remove_alls (entry server s) v) l).0,
          ))
          (λ f v l. removed_lem s away f v l)

    after_state-kept :
        (server_id snapshot : String) (was_running : Bool) (w : W)
        → dir_at w (live server) ≡ some orig
        → Ends IsReplaced
            (IsRecovered orig)
            (after_state host server server_id snapshot was_running w)
    unfolding after_state
    after_state-kept server_id snapshot was_running w h =
        bind_lem _ _ w
          (weaken (λ _ _ k. k) (λ _ _ k. inl k.2.0)
            (stop_running-Leaves host server calm was_running (λ _. acts "start") (λ _. acts "stop")
              w (h, tt)))
          λ _ v k.
            bind_lem _ _ v
              (weaken (λ _ _ l. l) (λ _ _ l. inl l.2.0)
                (take_safety-Leaves host server calm server_id was_running (λ _. acts "start")
                  (λ arguments u.
                    Same-Holds server safe dir_at before u _ (tree.restics arguments u))
                  v k))
              λ safety u l.
                bind_lem _ _ u
                  (or_else_lem _ _ u
                    (mkdir_temp_lem host server dir_at HoldsSnapshot safe tree before before
                      (sym (entry-live server safe dir_at), tt) (λ _ x. x) _ u l.1 l.1)
                    (λ reason t m.
                      weaken (λ _ _ n. n) (λ _ _ n. inl n.2.0)
                        (quietly_lem host server dir_at HoldsSnapshot safe tree before was_running
                          (failure_with safety ("create restore staging directory: " ++ reason)) t
                          m)))
                  λ p t ((s, e, named, free, m), (staging, there)). rw e (
                    staged_lem was_running snapshot safety s named free.0 staging t m.0
                      (rw e at there))
      where
        calm : IsCalm host server (Holds server safe dir_at before)
        calm = calm-Now host server dir_at HoldsSnapshot safe tree before

        acts : (verb : String) → KeepsAction host server verb (Holds server safe dir_at before)
        acts = acts-Now host server dir_at HoldsSnapshot safe tree before

  -- A request that passes its checks names a safe directory.
  module _ (D : W → Type 0) (w : W) (h : D w) where
    unless_lem :
        {P : Type 0} (f : Failure) (later : Result Failure (Unit {0})) (b : Bool)
        → (b ≡ true → Ends (λ _ _. P) (λ _. D) (later, w))
        → Ends (λ _ _. P) (λ _. D) (if not b then err f else later, w)
    unless_lem f later true k = k refl
    unless_lem f later false k = record { so = h }

    check_request-safe :
        (server_id snapshot confirmation : String)
        → Ends
            (λ _ _. is_safe (live server) ≡ true)
            (λ _. D)
            (check_request server_id server snapshot confirmation, w)
    unfolding check_request
    check_request-safe server_id snapshot confirmation =
        unless_lem _ _ (is_snapshot_id snapshot) λ _.
          unless_lem _ _ (confirmation == server_id)
            λ _. unless_lem _ _ (is_safe (live server)) λ e. record { so = e }

  -- Over a file system in which renames, removals and new directories change only their own names,
  -- restic writes into its target, and neither systemd nor the game moves what is beside the data
  -- directory: where the data directory holds the directory `orig`, a restore that succeeds leaves it
  -- holding a directory with the data of the snapshot that it names, and one that fails leaves `orig` there or
  -- at an entry beside it, there whenever the failure says that the rollback was restored.
  pub restore_snapshot-kept :
      (server_id text confirmation : String) (orig : ℕ) (w : W)
      → dir_at w (live server) ≡ some orig
      → Ends IsReplaced
          (IsRecovered orig)
          (restore_snapshot host server server_id text confirmation w)
  unfolding restore_snapshot
  restore_snapshot-kept server_id text confirmation orig w h =
      computed_lem _ _ w
        (weaken (λ _ _ k. k) (λ _ _ k. inl k)
          (check_request-safe (λ v. dir_at v (live server) ≡ some orig) w h server_id
            (host.trim_space text) confirmation))
        λ _ safe. observe_lem _ _ w (
          computed_lem _ _ w
            (weaken (λ _ _ k. k) (λ _ _ k. inl k.2)
              (check_live-Refuses host server (λ v. dir_at v (live server) ≡ some orig)
                (host.lstat (live server) w) w h))
            λ _ _.
              bind_lem {P = λ _ v. dir_at v (live server) ≡ some orig} _ _ w
                (or_else_lem {P = λ _ v. dir_at v (live server) ≡ some orig} _ _ w
                  (service_running_state-Leaves host (λ v. dir_at v (live server) ≡ some orig)
                    server.unit (λ v k. tree.shows v (live server) (inl refl) ∙ k) w h)
                  (λ e v k. record { so = inl k }))
                λ was_running v k.
                  after_state-kept safe orig server_id (host.trim_space text) was_running v k)
