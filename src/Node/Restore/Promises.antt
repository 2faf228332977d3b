-- ===== src/Node/Restore/Promises.antt =====
-- A restore of a server that does not run never starts it, and one that fails before its safety
-- snapshot changes no file.
use hogs.Prelude.{
  String, Bool, true, false, not, none, some, List, ◌==◌, ◌≡◌, ◌⊎◌, inl, inr, refl, contradicts,
  if◌then◌else◌,
}
use Prim.Native.String.{◌++◌}
use hogs.Prelude.Fallible.{Result, ok, err}
use hogs.Node.Paths.{clean, dir}
use hogs.Node.Steps.{
  Ends, Leaves, weaken, never_lem, leaves_lem, bind_lem, or_else_lem, observe_lem, deferred_lem,
  computed_lem,
}
use hogs.Node.Host.{
  Host, Server, Kind, directory, Look, found, missing, unseen, service_running_state,
}
use hogs.Node.Wait.Rounds.{service_running_state-Leaves}
use hogs.Node.Calm.{IsCalm, KeepsAction}
use hogs.Node.Restore.{Failure, failure, failure_with, is_snapshot_id, is_safe}
use hogs.Node.Restore.Run.{check_request, check_live, after_state, restore_snapshot}
use hogs.Node.Restore.Before.{IsTold, fail_quietly-Leaves, stop_running-Leaves, take_safety-Leaves}
use hogs.Node.Restore.Quiet.{IsQuiet}
use hogs.Node.Restore.Service.{restore_from-Names}

module _ {W : Type 0} (host : Host W) (server : Server) where
  -- A refusal of the request, before anything is done.
  module _ (P : W → Type 0) where
    abbrev pub Refuses : Result Failure (Unit {0}) → Type 0
    Refuses r = (w : W) → P w → Ends (λ _. P) (IsTold host server P (failure "")) (r, w)

    refuses_lem :
        (message : String) (later : Result Failure (Unit {0})) (wrong : Bool)
        → Refuses later
        → Refuses (if wrong then err (failure message) else later)
    unfolding failure
    refuses_lem message later true h w k = record { so = (refl, refl, k) }
    refuses_lem message later false h w k = h w k

    pub check_request-Refuses :
        (server_id text confirmation : String)
        → Refuses (check_request server_id server text confirmation)
    unfolding check_request
    check_request-Refuses server_id text confirmation =
        refuses_lem _ _ (not (is_snapshot_id text)) (
          refuses_lem _ _ (not (confirmation == server_id))
            (refuses_lem _ _ (not (is_safe (clean server.data_dir))) λ w k. record { so = k }))

    pub check_live-Refuses : (look : Look) → Refuses (check_live look)
    unfolding check_live failure
    check_live-Refuses (found directory) w h = record { so = h }
    check_live-Refuses (found Kind.regular) w h = record { so = (refl, refl, h) }
    check_live-Refuses (found Kind.symlink) w h = record { so = (refl, refl, h) }
    check_live-Refuses (found Kind.irregular) w h = record { so = (refl, refl, h) }
    check_live-Refuses missing w h = record { so = (refl, refl, h) }
    check_live-Refuses (unseen e) w h = record { so = (refl, refl, h) }

  with_value :
      {A : Type 0} {P : W → Type 0} (r : Result String A × W) (b : A)
      → r.0 ≡ ok b
      → Leaves P r
      → Ends (λ a v. (a ≡ b) × P v) (λ _. P) r
  with_value (ok a, w) b e h = record { so = (cc (e), h.so) }
  with_value (err x, w) b e h = record { so = h.so }

  keeps_told :
      {A : Type 0} {P : W → Type 0} {Q : A → W → Type 0} (f : Failure) {r : Result Failure A × W}
      → Ends Q (IsTold host server P f) r
      → Ends Q (λ _. P) r
  keeps_told f h = weaken (λ _ _ k. k) (λ _ _ k. k.2) h

  started : (P : W → Type 0) (b : Bool) → b ≡ false → b ≡ true → KeepsAction host server "start" P
  started P b e f = absurd (contradicts (cc (e, f)))

  -- From the answer on that the service does not run.
  from_state :
      {P : W → Type 0} (quiet : IsQuiet host server P) (server_id snapshot : String) (b : Bool)
      (w : W)
      → b ≡ false
      → P w
      → Leaves P (after_state host server server_id snapshot b w)
  unfolding after_state
  from_state {P} quiet server_id snapshot b w e h =
      bind_lem _ _ w
        (keeps_told (failure "")
          (stop_running-Leaves host server quiet.calm b (started P b e) (λ _. quiet.stops) w h))
        λ _ v k.
          bind_lem _ _ v
            (keeps_told (failure "") (
              take_safety-Leaves host server quiet.calm server_id b (started P b e) quiet.restics v
                k))
            λ safety u l.
              bind_lem _ _ u
                (or_else_lem _ _ u
                  (leaves_lem _ (quiet.mkdir_temps (dir (clean server.data_dir)) _ u l.1))
                  (λ reason t m.
                    let f = failure_with safety ("create restore staging directory: " ++ reason) in
                    keeps_told f (
                      never_lem
                        (fail_quietly-Leaves host server quiet.calm b f (started P b e) t m))))
                λ staging t m.
                  deferred_lem _ _ t
                    (restore_from-Names host server quiet b (started P b e) snapshot safety staging
                      t m)
                    (λ r s n. quiet.remove_alls staging s n.1)
                    (λ f s n. quiet.remove_alls staging s n.1)

  -- Where systemd says at first that the service does not run, whatever is left as it is by all that a
  -- restore asks of its host, but perhaps not by a start of the service, is as it was when the
  -- restore ends, with success or with a failure: the restore does not start the service.
  pub restore_snapshot-unstarted :
      {P : W → Type 0} (server_id text confirmation : String) (w : W)
      → IsQuiet host server P
      → P w
      → (service_running_state host server.unit w).0 ≡ ok false
      → Leaves P (restore_snapshot host server server_id text confirmation w)
  unfolding restore_snapshot
  restore_snapshot-unstarted {P} server_id text confirmation w quiet h e =
      computed_lem _ _ w
        (keeps_told (failure "")
          (check_request-Refuses P server_id (host.trim_space text) confirmation w h))
        λ _ _. observe_lem _ _ w (
          computed_lem _ _ w
            (keeps_told (failure "")
              (check_live-Refuses P (host.lstat (clean server.data_dir) w) w h))
            λ _ _.
              bind_lem {P = λ b v. (b ≡ false) × P v} _ _ w
                (or_else_lem _ _ w
                  (with_value _ false e
                    (service_running_state-Leaves host P server.unit quiet.calm.shows w h))
                  (λ _ v k. record { so = k }))
                λ b v k. from_state quiet server_id (host.trim_space text) b v k.0 k.1)

  -- With the safety snapshot named, or with what it keeps unchanged.
  abbrev pub IsGuarded : (W → Type 0) → Failure → W → Type 0
  IsGuarded P f w =
      ((f.safety_snapshot_id ≡ none) × P w)
      ⊎ ((safety : String) × (f.safety_snapshot_id ≡ some safety) × ((safety == "") ≡ false))

  anything : IsQuiet host server (λ _. Unit {0})
  anything = record {
    calm = record { shows = λ _ _. tt; sleeps = λ _ _ _. tt; versions = λ _ _. tt };
    stops = λ _ _. tt;
    renames = λ _ _ _ _. tt;
    removes = λ _ _ _. tt;
    remove_alls = λ _ _ _. tt;
    mkdir_temps = λ _ _ _ _. tt;
    syncs = λ _ _ _. tt;
    free_blocks = λ _ _ _. tt;
    restics = λ _ _ _. tt;
    restic_stats = λ _ _ _ _. tt;
    restic_restores = λ _ _ _ _ _. tt;
  }

  guards_told :
      {A : Type 0} (P : W → Type 0) {Q : A → W → Type 0} {r : Result Failure A × W}
      → Ends Q (IsTold host server P (failure "")) r
      → Ends Q (IsGuarded P) r
  unfolding failure
  guards_told P h = weaken (λ _ _ k. k) (λ f _ k. inl (k.0, k.2)) h

  -- A property that the questions to systemd and the game, the start and the stop of the service and
  -- the backup by restic leave as it is holds after a restore that fails without naming a safety
  -- snapshot; the others name one that is not empty, and so does a success. So no file of
  -- the server is touched before its safety snapshot exists.
  pub restore_snapshot-IsGuarded :
      {P : W → Type 0} (server_id text confirmation : String) (w : W)
      → IsCalm host server P
      → KeepsAction host server "start" P
      → KeepsAction host server "stop" P
      → ((arguments : List String) (w : W) → P w → P (host.restic server arguments w).1)
      → P w
      → Ends
          (λ r _. (r.safety_snapshot_id == "") ≡ false)
          (IsGuarded P)
          (restore_snapshot host server server_id text confirmation w)
  unfolding restore_snapshot after_state failure_with failure
  restore_snapshot-IsGuarded {P} server_id text confirmation w calm starts stops restics h =
      computed_lem _ _ w
        (guards_told P (check_request-Refuses P server_id (host.trim_space text) confirmation w h))
        λ _ _. observe_lem _ _ w (
          computed_lem _ _ w
            (guards_told P (check_live-Refuses P (host.lstat (clean server.data_dir) w) w h))
            λ _ _.
              bind_lem {P = λ _. P} _ _ w
                (or_else_lem {P = λ _. P} _ _ w
                  (service_running_state-Leaves host P server.unit calm.shows w h)
                  (λ _ v k. record { so = inl (refl, k) }))
                λ b v k.
                  bind_lem _ _ v
                    (guards_told P
                      (stop_running-Leaves host server calm b (λ _. starts) (λ _. stops) v k))
                    λ _ u l.
                      bind_lem _ _ u
                        (guards_told P (
                          take_safety-Leaves host server calm server_id b (λ _. starts) restics u
                            l))
                        λ safety t m.
                          bind_lem _ _ t
                            (or_else_lem _ _ t (leaves_lem {P = λ _. Unit {0}} _ tt) (λ reason s _.
                              let f =
                                failure_with safety
                                  ("create restore staging directory: " ++ reason) in
                              weaken (λ _ _ n. absurd n) (λ _ _ n. inr (safety, n.0, m.0))
                                (fail_quietly-Leaves host server anything.calm b f (λ _ _ _. tt) s
                                  tt)))
                            λ staging s _.
                              deferred_lem _ _ s
                                (restore_from-Names host server anything b (λ _ _ _. tt) _ safety
                                  staging s tt)
                                (λ r _ n. cc (n.0, m.0)) (λ f _ n. inr (safety, n.0, m.0)))
