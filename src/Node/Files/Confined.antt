-- ===== src/Node/Files/Confined.antt =====
-- The changes that a client makes stay in the data directory of the server.
use mathlib.Core.Path.{subst}
use hogs.Prelude.{String, true, ◌&&◌, List, ◌++◌, ◌==◌, All, ◌≡◌, refl}
use hogs.Prelude.Fallible.{Result, ok, err}
use hogs.Node.Paths.{FilePath, clean, dir, same_path}
use hogs.Node.Paths.Parts.{IsName}
use hogs.Node.Steps.{
  fail, attempt, ◌>>◌, Ends, Leaves, leaves_lem, bind_lem, then_lem, on_lem, observe_lem,
  computed_lem, deferred_lem, attempt-Leaves,
}
use hogs.Node.Host.{Kind, Server}
use hogs.Node.Resolve.{resolve_path}
use hogs.Node.Resolve.Confined.{IsPlain, resolve_path-confined}
use hogs.Node.Files.{
  FileSystem, check_operation, is_directory_kind, is_regular_kind, is_within, resolve_now,
  keep_or_remove, copy_file_exclusive, perform, file_operation, file_delete, mkdir,
}

module _ {W : Type 0} (fs : FileSystem W) (server : Server) (start : W) where
  -- The data directory, or below it by proper names, with no symbolic link on the way when the
  -- request was made.
  abbrev pub IsInside : FilePath → Type 0
  IsInside p =
      (names : List String) × (p.parts ≡ (clean server.data_dir).parts ++ names)
      × All IsName names
      × IsPlain (λ q. fs.lstat q start) (clean server.data_dir) names

  -- A property that the changes inside the data directory keep.
  pub record IsIndifferent (P : W → Type 0) : Type 0 where
    pub mkdirs : (p : FilePath) (w : W) → IsInside p → P w → P (fs.mkdir_all p w).1
    pub removes : (p : FilePath) (w : W) → IsInside p → P w → P (fs.remove p w).1
    pub renames : (p q : FilePath) (w : W) → IsInside p → IsInside q → P w → P (fs.rename p q w).1
    pub opens : (p : FilePath) (w : W) → IsInside p → P w → P (fs.open_file p w).1
    pub creates : (p : FilePath) (w : W) → IsInside p → P w → P (fs.create_exclusive p w).1
    pub copies : (p q : FilePath) (w : W) → IsInside p → IsInside q → P w → P (fs.copy p q w).1
    pub syncs : (p : FilePath) (w : W) → IsInside p → P w → P (fs.sync p w).1
    pub closes : (p : FilePath) (w : W) → IsInside p → P w → P (fs.close p w).1

  module _ {P : W → Type 0} (indifferent : IsIndifferent P)
      (absolute : server.data_dir.rooted ≡ true) where
    resolve_now-IsInside :
        (p : FilePath) (w : W)
        → w ≡ start
        → P w
        → Ends (λ path v. IsInside path × (v ≡ start) × P v) (λ _. P) (resolve_now fs server p w)
    unfolding resolve_now
    resolve_now-IsInside p w s h = go (resolve_path (λ path. fs.lstat path w) server p) refl
      where
        go :
            (r : Result String FilePath)
            → resolve_path (λ path. fs.lstat path w) server p ≡ r
            → Ends (λ path v. IsInside path × (v ≡ start) × P v) (λ _. P) (r, w)
        go (ok path) e =
            let (names, parts, proper, plain) =
              resolve_path-confined (λ q. fs.lstat q w) server p path absolute e in
            let plain' =
              subst (λ (u : W). IsPlain (λ q. fs.lstat q u) (clean server.data_dir) names) s
                plain in
            let inside : IsInside path = (names, parts, proper, plain') in
            record { so = (inside, s, h) }
        go (err x) e = record { so = h }

    same_lem :
        {A : Type 0} (r : Result String A) (w : W) → P w → Ends (λ _ _. Unit {0}) (λ _. P) (r, w)
    same_lem (ok a) w h = record { so = tt }
    same_lem (err e) w h = record { so = h }

    removed_lem :
        (target : FilePath) (e : String) (w : W)
        → IsInside target
        → P w
        → Leaves {A = Unit {0}} P ((attempt {F = String} (fs.remove target) >> fail e) w)
    unfolding attempt
    removed_lem target e w i h =
        then_lem {P = λ _. P} _ _ w (record { so = indifferent.removes target w i h })
          λ _ v k. record { so = k }

    keep_or_remove-Leaves :
        (target : FilePath) (copied closed : Result String (Unit {0})) (w : W)
        → IsInside target
        → P w
        → Leaves P (keep_or_remove fs server target copied closed w)
    unfolding keep_or_remove
    keep_or_remove-Leaves target (ok _) (ok _) w i h = record { so = h }
    keep_or_remove-Leaves target (err e) closed w i h = removed_lem target e w i h
    keep_or_remove-Leaves target (ok _) (err e) w i h = removed_lem target e w i h

    copy_file_exclusive-Leaves :
        (source target : FilePath) (w : W)
        → IsInside source
        → IsInside target
        → P w
        → Leaves P (copy_file_exclusive fs server source target w)
    unfolding copy_file_exclusive
    copy_file_exclusive-Leaves source target w i j h =
        bind_lem {P = λ _. P} _ _ w (leaves_lem _ (indifferent.opens source w i h)) λ _ v k.
          deferred_lem {P = λ _. P} {R = λ _. P} _ _ v
            (bind_lem {P = λ _. P} _ _ v (leaves_lem _ (indifferent.creates target v j k)) λ _ u l.
              attempt-Leaves _ _ u
                (then_lem {P = λ _. P} _ _ u
                  (leaves_lem _ (indifferent.copies source target u i j l))
                  λ _ t m. leaves_lem _ (indifferent.syncs target t j m))
                λ copied t m.
                  attempt-Leaves _ _ t (leaves_lem _ (indifferent.closes target t j m))
                    λ closed s n. keep_or_remove-Leaves target copied closed s j n)
            (λ _ u l. indifferent.closes source u i l) (λ _ u l. indifferent.closes source u i l)

    perform-Leaves :
        (operation : String) (kind : Kind) (source target : FilePath) (w : W)
        → IsInside source
        → IsInside target
        → P w
        → Leaves P (perform fs server operation kind source target w)
    unfolding perform
    perform-Leaves operation kind source target w i j h =
        on_lem (operation == "rename") _ _ w
          (λ _.
            on_lem (same_path (dir source) (dir target)) _ _ w
              (λ _. leaves_lem _ (indifferent.renames source target w i j h))
              (λ _. record { so = h }))
          (λ _.
            on_lem (operation == "move") _ _ w
              (λ _.
                on_lem (is_directory_kind kind && is_within source target) _ _ w
                  (λ _. record { so = h })
                  (λ _. leaves_lem _ (indifferent.renames source target w i j h)))
              (λ _.
                on_lem (is_regular_kind kind) _ _ w
                  (λ _. copy_file_exclusive-Leaves source target w i j h) (λ _. record { so = h })))

    -- A property that every change in the data directory keeps, at a path that has no symbolic link on
    -- the way from that directory when the request is made, is kept by a rename, a move, a copy,
    -- a deletion and the making of a directory for a client, whatever paths are asked for and whether
    -- they succeed or fail, where the data directory is an absolute path.
    pub file_operation-confined :
        (operation : String) (p q : FilePath)
        → P start
        → Leaves P (file_operation fs server operation p q start)
          × Leaves P (file_delete fs server p start)
          × Leaves P (mkdir fs server p start)
    unfolding file_operation file_delete mkdir
    file_operation-confined operation p q h = (
      computed_lem {P = λ _ _. Unit {0}} _ _ start (same_lem (check_operation operation) start h)
          λ _ _. bind_lem _ _ start (resolve_now-IsInside p start refl h) λ source v (i, s, k).
            bind_lem _ _ v (resolve_now-IsInside q v s k) λ target u (j, _, l).
              computed_lem _ _ u (same_lem _ u l) λ _ _. observe_lem _ _ u (
                computed_lem _ _ u (same_lem _ u l) λ kind _. observe_lem _ _ u (
                  computed_lem _ _ u (same_lem _ u l) λ _ _. observe_lem _ _ u (
                    computed_lem _ _ u (same_lem _ u l)
                      λ _ _. perform-Leaves operation kind source target u i j l))),
      bind_lem _ _ start (resolve_now-IsInside p start refl h) λ path v (i, _, k).
          observe_lem _ _ v (
            computed_lem _ _ v (same_lem _ v k)
              λ _ _. leaves_lem _ (indifferent.removes path v i k)),
      bind_lem _ _ start (resolve_now-IsInside p start refl h)
          λ path v (i, _, k). leaves_lem _ (indifferent.mkdirs path v i k),
    )
