-- ===== src/Node/Restore/Tree.antt =====
-- The directories that a restore moves, and what it relies on: that a rename, a removal and a new
-- directory leave the names outside of theirs alone, that restic writes into its target, and that
-- systemd, restic and the game leave the entries beside the data directory where they are.
use hogs.Prelude.{
  ℕ, String, Bool, true, false, Option, none, some, List, [], ◌∷◌, ◌++◌, ◌≡◌, ◌⊎◌, refl, sym,
  contradicts,
}
use hogs.Node.Paths.{
  FilePath, clean, join, dir, base, child, strip_prefix, same_path, below_base, without_last,
  last_part,
}
use hogs.Node.Paths.Parts.{IsName, Outside, without_last-last_part}
use hogs.Node.Steps.{Ends}
use hogs.Node.Host.{Host, Server, found, directory}
use hogs.Node.Restore.{is_safe}

module _ (server : Server) where
  abbrev pub live : FilePath
  live = clean server.data_dir

  abbrev pub entry : String → FilePath
  entry name = child (dir live) name

  -- Not below the data directory, where the game writes.
  abbrev pub IsBeside : FilePath → Type 0
  IsBeside q = (q ≡ live) ⊎ Outside q live

-- `dir_at` tells which directory a name holds, `HoldsSnapshot` which ones hold a snapshot's data.
module _ {W : Type 0} (server : Server) (dir_at : W → FilePath → Option ℕ) where
  abbrev pub Same : W → W → Type 0
  Same w v = (q : FilePath) → IsBeside server q → dir_at v q ≡ dir_at w q

  abbrev pub SameOutside : FilePath → W → W → Type 0
  SameOutside p w v = (q : FilePath) → IsBeside server q → Outside q p → dir_at v q ≡ dir_at w q

  abbrev pub IsNew : W → FilePath → W → Type 0
  IsNew w p v =
      (name : String) × (p ≡ entry server name)
      × IsName name
      × (dir_at w p ≡ none)
      × ((d : ℕ) × (dir_at v p ≡ some d))
      × SameOutside p w v

module _ {W : Type 0} (host : Host W) (server : Server) (dir_at : W → FilePath → Option ℕ)
    (HoldsSnapshot : String → ℕ → Type 0) where
  pub record Tree : Type 0 where
    pub shows : (w : W) → Same server dir_at w (host.show_unit server.unit w).1
    pub sleeps : (pause : ℕ) (w : W) → Same server dir_at w (host.sleep pause w)
    pub versions : (w : W) → Same server dir_at w (host.game_version server w).1
    pub acts : (verb : String) (w : W) → Same server dir_at w (host.systemctl verb server.unit w).1
    pub restics :
        (arguments : List String) (w : W) → Same server dir_at w (host.restic server arguments w).1
    pub restic_stats :
        (snapshot : String) (p : FilePath) (w : W)
        → Same server dir_at w (host.restic_stats server snapshot p w).1
    pub free_blocks : (p : FilePath) (w : W) → Same server dir_at w (host.free_blocks p w).1
    pub syncs : (p : FilePath) (w : W) → Same server dir_at w (host.sync_directory p w).1
    pub looks :
        (p : FilePath) (w : W) → host.lstat p w ≡ found directory → (d : ℕ) × (dir_at w p ≡ some d)
    pub mkdir_temps :
        (prefix : String) (w : W)
        → Ends
            (IsNew server dir_at w)
            (λ _. Same server dir_at w)
            (host.mkdir_temp (dir (live server)) prefix w)
    pub removes : (p : FilePath) (w : W) → SameOutside server dir_at p w (host.remove p w).1
    pub remove_alls : (p : FilePath) (w : W) → SameOutside server dir_at p w (host.remove_all p w).1
    pub renames :
        (p q : FilePath) (w : W)
        → Ends
            (λ _ v.
              (dir_at v q ≡ dir_at w p)
              × ((o : FilePath)
                  → IsBeside server o
                  → Outside o p
                  → Outside o q
                  → dir_at v o ≡ dir_at w o))
            (λ _. Same server dir_at w)
            (host.rename p q w)
    pub restores :
        (snapshot name : String) (w : W)
        → IsName name
        → Ends
            (λ _ v.
              ((d : ℕ)
                → dir_at v (join (entry server name) (live server)) ≡ some d
                → HoldsSnapshot snapshot d)
              × ((q : FilePath)
                  → IsBeside server q
                  → (q ≡ entry server name) ⊎ Outside q (entry server name)
                  → dir_at v q ≡ dir_at w q))
            (λ _ v.
              (q : FilePath)
              → IsBeside server q
              → (q ≡ entry server name) ⊎ Outside q (entry server name)
              → dir_at v q ≡ dir_at w q)
            (host.restic_restore server snapshot (entry server name) (live server) w)

-- The parts of a safe path.
pub is_safe_lem :
    (p : FilePath) → is_safe p ≡ true → (p.rooted ≡ true) × ((dir p).parts ++ base p ∷ [] ≡ p.parts)
unfolding is_safe dir base same_path below_base strip_prefix
is_safe_lem p e = go p.rooted p.parts e
  where
    go :
        (r : Bool) (parts : List String)
        → is_safe (record { rooted = r; parts = parts }) ≡ true
        → (r ≡ true) × (without_last parts ++ last_part parts ∷ [] ≡ parts)
    go true [] e = absurd (contradicts (sym e))
    go true (part ∷ parts) e = (refl, without_last-last_part part parts)
    go false parts e = absurd (contradicts (sym e))
