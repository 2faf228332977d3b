-- ===== src/Schedule/Spacing.antt =====
-- The cooldown over all the firings of a rule.
use hogs.Prelude.{ℕ, ◌+◌, ◌*◌, ◌/◌, ◌≤◌, Option, none, some, List, [], ◌∷◌, ◌≡◌}
use hogs.Schedule.{second, Stamp, Job}
use hogs.Schedule.Runs.{World}

-- Successful actions are at least the cooldown apart, a later one measured from the whole second
-- in which the earlier one was started.
unfoldable pub IsSpaced : ℕ → List ℕ → Type 0
IsSpaced cooldown [] = Unit
IsSpaced cooldown (x ∷ []) = Unit
IsSpaced cooldown (x ∷ y ∷ ys) =
    (y / second * second + cooldown * second ≤ x) × IsSpaced cooldown (y ∷ ys)

unfoldable pub last_run : List ℕ → Option Stamp
last_run [] = none
last_run (x ∷ xs) = some (Stamp.at (x / second))

pub record IsSound (cooldown : ℕ) (w : World) : Type 0 where
  pub same : w.job.cooldown_seconds ≡ cooldown
  pub last : w.job.last_action_at ≡ last_run w.runs
  pub spaced : IsSpaced cooldown w.runs

abbrev pub new_rule : Job → World
new_rule job = record { job = job; runs = []; history = [] }
