-- ===== src/Node/Restore/Moves.antt =====
-- The renames of a restore and of its way back, by the directories at the entries beside the data
-- directory.
use hogs.Prelude.{
  ℕ, String, Bool, true, false, Option, none, some, List, [], ◌∷◌, ◌==◌, All, ◌≡◌, ◌≢◌, ◌⊎◌, inl,
  inr, refl, sym, ◌∙◌,
}
use Prim.Native.String.{◌++◌}
use hogs.Prelude.Fallible.{Result, ok, err}
use hogs.Node.Paths.{FilePath, join, dir}
use hogs.Node.Paths.Parts.{IsName}
use hogs.Node.Steps.{
  fail, Outcome, Ends, Leaves, weaken, leaves_lem, bind_lem, or_else_lem, attempt, attempt_lem,
  attempt-Leaves, ◌>>=◌,
}
use hogs.Node.Host.{Host, Server}
use hogs.Node.Calm.{restart_original-Leaves}
use hogs.Node.Restore.{Failure, failure, failure_with, note, restart_original, is_safe}
use hogs.Node.Restore.Stage.{reserve_rollback}
use hogs.Node.Restore.Swap.{activate}
use hogs.Node.Restore.Before.{IsTold}
use hogs.Node.Restore.Tree.{live, entry, IsNew, Tree}
use hogs.Node.Restore.Places.{
  Fact, Holds, AreApart, IsAt, IsOther, at_live, at_entry, at_staged, Same-Holds, outside-Holds,
  renamed-Holds, fresh_lem, entry-live, live-IsAt, entry-IsAt, staged-IsAt, apart_sym,
}
use hogs.Node.Restore.Stages.{calm-Now, acts-Now, quietly_lem}

module _ {W : Type 0} (host : Host W) (server : Server) (dir_at : W → FilePath → Option ℕ)
    (HoldsSnapshot : String → ℕ → Type 0) (safe : is_safe (live server) ≡ true)
    (tree : Tree host server dir_at HoldsSnapshot) where
  abbrev pub Facts : Type 0
  Facts = List (Fact server safe)

  abbrev pub Now : Facts → W → Type 0
  Now = Holds server safe dir_at

  -- What a new directory beside the data directory is: at a name that none of the facts has.
  abbrev pub IsReserved : Facts → FilePath → W → Type 0
  IsReserved facts p v =
      (name : String) × (p ≡ entry server name)
      × IsName name
      × AreApart server safe dir_at name facts
      × Now facts v

  module _ (entries facts : Facts) (places : All (λ f. f.place ≡ entry server f.name) entries)
      (apart : (name : String)
        → AreApart server safe dir_at name entries
        → AreApart server safe dir_at name facts) where
    names_fresh :
        (w : W) (name : String) (fs : Facts)
        → All (λ f. f.place ≡ entry server f.name) fs
        → dir_at w (entry server name) ≡ none
        → Now fs w
        → AreApart server safe dir_at name fs
    names_fresh w name [] k e h = tt
    names_fresh w name (f ∷ fs) k e h =
        (fresh_lem server safe dir_at w name f k.0 e h.0, names_fresh w name fs k.1 e h.1)

    pub path_at_entry_lem :
        (p : FilePath) (name : String) → p ≡ entry server name → IsAt server safe p name
    path_at_entry_lem p name e = rw e (entry-IsAt server safe name)

    pub mkdir_temp_lem :
        (prefix : String) (w : W)
        → Now entries w
        → Now facts w
        → Ends
            (λ p v. IsReserved facts p v × ((d : ℕ) × (dir_at v p ≡ some d)))
            (λ _. Now facts)
            (host.mkdir_temp (dir (live server)) prefix w)
    mkdir_temp_lem prefix w k h =
        weaken fresh (λ _ v same. Same-Holds server safe dir_at facts w v same h)
          (tree.mkdir_temps prefix w)
      where
        fresh :
            (p : FilePath) (v : W)
            → IsNew server dir_at w p v
            → IsReserved facts p v × ((d : ℕ) × (dir_at v p ≡ some d))
        fresh p v (name, e, named, absent, there, same) =
            let free = apart name (names_fresh w name entries places (rw e at absent) k) in
            let kept =
              outside-Holds server safe dir_at facts p name w v (path_at_entry_lem p name e) free
                same h in
            ((name, e, named, free, kept), there)

    pub remove_lem :
        (p : FilePath) (w : W)
        → IsReserved facts p w
        → Ends (λ _. IsReserved facts p) (λ _. Now facts) (host.remove p w)
    remove_lem p w (name, e, named, free, h) =
        weaken (λ _ v k. (name, e, named, free, k)) (λ _ v k. k)
          (leaves_lem (host.remove p w) (
            outside-Holds server safe dir_at facts p name w _ (path_at_entry_lem p name e) free
              (tree.removes p w) h))

  -- The original directory is in its place, or at another entry and not told to be in its place.
  abbrev pub IsKept : String → ℕ → Failure → W → Type 0
  IsKept s orig f v =
      Now (at_live server safe orig ∷ []) v
      ⊎ ((r : String) × (free : IsOther server safe r) × ((s == r) ≡ false)
          × Now (at_entry server safe r free orig ∷ []) v
          × (f.rollback_restored ≢ some true))

  -- The state of a restore before its renames, and what a failure from then on tells.
  module _ (snapshot safety s : String) (is_name : IsName s) (other : IsOther server safe s)
      (orig staging d : ℕ) (was_running : Bool) where
    abbrev start : Facts
    start = at_live server safe orig ∷ at_entry server safe s other staging ∷ []

    abbrev filled : Facts
    filled = at_staged server safe s is_name other d ∷ start

    start-places : All (λ f. f.place ≡ entry server f.name) start
    start-places = (sym (entry-live server safe dir_at), (refl, tt))

    pub reserve_rollback-IsReserved :
        (w : W)
        → Now filled w
        → Ends
            (λ p. IsReserved filled p)
            (IsTold host server (Now filled) (failure_with safety ""))
            (reserve_rollback host server safety was_running w)
    unfolding reserve_rollback failure_with failure
    reserve_rollback-IsReserved w h =
        bind_lem {P = λ p. IsReserved filled p} _ _ w
          (or_else_lem {P = λ _. Now filled} _ _ w
            (weaken (λ _ _ k. k.0) (λ _ _ k. k)
              (mkdir_temp_lem start filled start-places (λ name k. (k.1.0, k)) _ w h.1 h))
            (λ e v k.
              quietly_lem host server dir_at HoldsSnapshot safe tree filled was_running _ v k))
          λ p v k.
            bind_lem {P = λ _. IsReserved filled p} _ _ v
              (or_else_lem {P = λ _. Now filled} _ _ v
                (remove_lem start filled start-places (λ name k. (k.1.0, k)) p v k)
                (λ e u l.
                  quietly_lem host server dir_at HoldsSnapshot safe tree filled was_running _ u l))
              λ _ u l. record { so = l }

    pub restarts :
        (facts : Facts) (w : W)
        → Now facts w
        → Leaves (Now facts) (restart_original host server was_running was_running w)
    restarts facts w h =
        restart_original-Leaves host server
          (calm-Now host server dir_at HoldsSnapshot safe tree facts) was_running
          (λ _. acts-Now host server dir_at HoldsSnapshot safe tree facts "start") w h

    told-IsKept :
        (f : Failure) (v : W)
        → IsTold host server (Now filled) (failure_with safety "") f v
        → IsKept s orig f v
    told-IsKept f v k = inl (k.2.1.0, tt)

    -- After the renames: the restored data in its place, the original at the entry r.
    module _ (r : String) (free : IsOther server safe r) (apart : (s == r) ≡ false) where
      abbrev pub swapped : Facts
      swapped = at_live server safe d ∷ at_entry server safe r free orig ∷ []

      abbrev moved : Facts
      moved = at_entry server safe r free orig ∷ at_staged server safe s is_name other d ∷ []

      -- A renaming of the original directory from its entry to its place, or not.
      pub back_lem :
          (w : W)
          → Now (at_entry server safe r free orig ∷ []) w
          → Ends
              (λ _ v. Now (at_live server safe orig ∷ []) v)
              (λ _ v. Now (at_entry server safe r free orig ∷ []) v)
              (host.rename (entry server r) (live server) w)
      back_lem w h =
          weaken (λ _ v k. (k.0 ∙ h.0, tt))
            (λ _ v k. Same-Holds server safe dir_at (at_entry server safe r free orig ∷ []) w v k h)
            (tree.renames (entry server r) (live server) w)

      -- The end of a swap that failed and was undone, or was not.
      undone_lem :
          (undone : Result String (Unit {0})) (t : W)
          → Outcome
              (λ _ v. Now (at_live server safe orig ∷ []) v)
              (λ _ v. Now (at_entry server safe r free orig ∷ []) v)
              (undone, t)
          → (f : Result String (Unit {0}) → Failure)
          → ((x : Result String (Unit {0})) → (f x).rollback_restored ≡ none)
          → Ends {A = Unit {0}}
              (λ _. Now swapped)
              (IsKept s orig)
              ((attempt (restart_original host server was_running was_running) >>= λ x. fail (f x))
                t)
      undone_lem (ok _) t m f e =
          attempt-Leaves _ (λ x. fail (f x)) t (restarts (at_live server safe orig ∷ []) t m)
            λ x v n. record { so = inl n }
      undone_lem (err _) t m f e =
          attempt-Leaves _ (λ x. fail (f x)) t
            (restarts (at_entry server safe r free orig ∷ []) t m)
            λ x v n. record { so = inr (r, free, apart, n, λ q. cc (q, e x)) }

      pub activate-swapped :
          (w : W)
          → Now filled w
          → Ends
              (λ _. Now swapped)
              (IsKept s orig)
              (activate host server safety was_running (entry server s) (entry server r) w)
      unfolding activate failure_with failure
      activate-swapped w h =
          bind_lem {P = λ _. Now moved} _ _ w
            (or_else_lem {P = λ _. Now filled} _ _ w
              (weaken
                (λ _ v k. (
                  k.0 ∙ h.1.0,
                  renamed-Holds server safe dir_at (at_staged server safe s is_name other d ∷ [])
                      (live server) (entry server r) _ r w v (live-IsAt server safe)
                      (entry-IsAt server safe r) (other, tt) (apart_sym s r apart, tt) k.1
                      (h.0, tt),
                ))
                (λ _ v k. Same-Holds server safe dir_at filled w v k h)
                (tree.renames (live server) (entry server r) w))
              (λ e v k.
                weaken (λ _ _ x. x) told-IsKept
                  (quietly_lem host server dir_at HoldsSnapshot safe tree filled was_running
                    (failure_with safety ("move live data to rollback path: " ++ e)) v k)))
            λ _ v k.
              or_else_lem {P = λ _. Now moved} _ _ v
                (weaken
                  (λ _ u l. (
                    l.0 ∙ k.1.0,
                    renamed-Holds server safe dir_at (at_entry server safe r free orig ∷ [])
                        (join (entry server s) (live server)) (live server) s _ v u
                        (staged-IsAt server safe s is_name) (live-IsAt server safe) (apart, tt)
                        (free, tt) l.1 (k.0, tt),
                  ))
                  (λ _ u l. Same-Holds server safe dir_at moved v u l k)
                  (tree.renames (join (entry server s) (live server)) (live server) v))
                (λ e u l. attempt_lem _ _ u (back_lem u (l.0, tt)) λ undone t m.
                  undone_lem undone t m
                    (λ restarted. failure_with safety (
                      "activate restored data: "
                      ++ e
                      ++ note "; failed to restore original data: " undone
                      ++ note "; failed to restart original service: " restarted))
                    (λ _. refl))
