-- ===== src/Node/Tests.antt =====
-- A small host with the data of one server at /srv, and the agent on it.

mod Runs
mod Client
pub mod Laws
use hogs.Prelude.{
  ℕ, zero, suc, ◌+◌, eqb, String, Bool, true, false, Option, none, some, List, [], ◌∷◌, ◌==◌, ◌≡◌,
  ◌≢◌, ◌⊎◌, inl, inr, refl, if◌then◌else◌,
}
use hogs.Prelude.Dict.{put, empty}
use hogs.Prelude.Fallible.{Result, ok, err}
use hogs.Node.Paths.{FilePath, clean, join, dir, child, strip_prefix}
use hogs.Node.Steps.{Op}
use hogs.Node.Host.{Host, Server, Look, found, missing, directory}

-- The directories by their paths, whether the service runs, and how often it was started.
pub record World : Type 0 where
  pub running : Bool
  pub clock : ℕ
  pub starts : ℕ
  pub made : ℕ
  pub files : List String → Option ℕ

abbrev pub server : Server
server = record {
  unit = "game.service";
  data_dir = record { rooted = true; parts = "srv" ∷ [] };
  game_type = "minecraft";
  console_type = "rcon";
  update_unit = "game-update.service";
  environment_file = "/etc/restic";
}

abbrev pub without : List String → (List String → Option ℕ) → List String → Option ℕ
without p files key = elim (strip_prefix p key) [ none ↦ files key | some _ ↦ none ]

abbrev pub put_at : Option (List String) → ℕ → Option ℕ → Option ℕ
put_at (some []) d old = some d
put_at (some (_ ∷ _)) d old = none
put_at none d old = old

abbrev pub with_at : List String → ℕ → (List String → Option ℕ) → List String → Option ℕ
with_at p d files key = put_at (strip_prefix p key) d (files key)

abbrev pub look_of : Option ℕ → Look
look_of none = missing
look_of (some _) = found directory

abbrev pub rename_result : Option ℕ → Result String (Unit {0})
rename_result none = err "no such directory"
rename_result (some _) = ok tt

abbrev pub renamed :
    List String → List String → Option ℕ → (List String → Option ℕ) → List String → Option ℕ
renamed p q none files = files
renamed p q (some d) files = with_at q d (without p files)

abbrev pub name_of : ℕ → String
name_of zero = "t0"
name_of (suc zero) = "t1"
name_of (suc (suc n)) = "t2"

abbrev pub made : FilePath → Option ℕ → Result String FilePath
made p none = ok p
made p (some _) = err "file exists"

abbrev pub added : List String → Option ℕ → (List String → Option ℕ) → List String → Option ℕ
added p none files = with_at p 9 files
added p (some _) files = files

abbrev pub state_text : Bool → String
state_text true = "active"
state_text false = "inactive"

-- A start fails on the directory 2 where `picky` is true.
abbrev pub start_result : Bool → Option ℕ → Result String (Unit {0})
start_result false _ = ok tt
start_result true none = ok tt
start_result true (some d) = if eqb d 2 then err "refused" else ok tt

abbrev pub is_ok : Result String (Unit {0}) → Bool
is_ok (ok _) = true
is_ok (err _) = false

abbrev pub act : Bool → String → World → Result String (Unit {0}) × World
act picky verb w =
    let result = if verb == "start" then start_result picky (w.files ("srv" ∷ [])) else ok tt in
    (
      result,
      record w {
        running = if verb == "start" then is_ok result else false;
        starts = if verb == "start" then w.starts + 1 else w.starts;
      },
    )

abbrev pub new_path : FilePath → World → FilePath
new_path p w = child p (name_of w.made)

-- The snapshot has the directory 2.
abbrev pub host : Bool → Host World
host picky = record {
  lstat = λ p w. look_of (w.files p.parts);
  stat = λ p w. look_of (w.files p.parts);
  rename = λ p q w. (
    rename_result (w.files p.parts),
    record w { files = renamed p.parts q.parts (w.files p.parts) w.files },
  );
  remove = λ p w. (ok tt, record w { files = without p.parts w.files });
  remove_all = λ p w. (ok tt, record w { files = without p.parts w.files });
  mkdir_temp = λ p prefix w. (
    made (new_path p w) (w.files (new_path p w).parts),
    record w {
      made = suc w.made;
      files = added (new_path p w).parts (w.files (new_path p w).parts) w.files;
    },
  );
  sync_directory = λ p w. (ok tt, w);
  free_blocks = λ p w. (ok (1_000_000, 4096), w);
  show_unit =
      λ unit w. (ok (put "LoadState" "loaded" (put "ActiveState" (state_text w.running) empty)), w);
  systemctl = λ verb unit w. act picky verb w;
  start_unit = λ unit w. (ok "updated", w);
  restic = λ _ arguments w. (ok ("snapshot abc saved" ∷ []), w);
  restic_stats = λ _ snapshot p w. (ok 1000, w);
  restic_restore =
      λ _ snapshot p q w. (ok tt, record w { files = with_at (join p q).parts 2 w.files });
  game_version = λ _ w. ("1.21", w);
  version_command = λ _. none;
  time = λ w. w.clock;
  sleep = λ pause w. record w { clock = w.clock + pause };
  trim_space = λ text. text;
  fields = λ line. "snapshot" ∷ "abc" ∷ "saved" ∷ [];
  decimal = λ n. "n";
  path_text = λ p. "path";
}

-- The directory 1 is in place.
abbrev pub world : Bool → World
world running = record {
  running = running;
  clock = 0;
  starts = 0;
  made = 0;
  files = with_at ("srv" ∷ []) 1 (λ _. none);
}
