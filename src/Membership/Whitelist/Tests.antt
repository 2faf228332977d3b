-- ===== src/Membership/Whitelist/Tests.antt =====
-- Runs of the reconciler on a small list.
use hogs.Prelude.{Bool, true, false, not, ◌&&◌, ◌||◌, List, [], ◌∷◌, any, All, ◌≡◌, refl}
use hogs.Prelude.Text.{codes, codes_eq, to_lower}
use hogs.Membership.Identity.{
  Key, Desired, Row, identity_key, is_desired, owns, find_row, desired_owner, set_for_identity,
}
use hogs.Membership.Identity.Tests.{minecraft}
use hogs.Membership.Whitelist.{Services, reconcile}
use hogs.Membership.Whitelist.Entries.{IsUnique}
use hogs.Membership.Whitelist.Ownership.{reconcile-ownership}
use hogs.Membership.Whitelist.Completion.{reconcile-completes}
use hogs.Membership.Whitelist.Manual.{runs, runs_keep_manual}

abbrev answering : Services
answering = record { sends = λ c. true; stores = λ w. true }

abbrev failing : Services
failing = record { sends = λ c. false; stores = λ w. true }

-- Ann plays as Fox and Ben as Owl; Cat was let in before as Elk, and Ann as Cow.
abbrev wanted_now : Desired
wanted_now = ("ann", "Fox") ∷ ("ben", "Owl") ∷ []

abbrev table : List Row
table = record { user = "ann"; name = "Cow" } ∷ record { user = "cat"; name = "Elk" } ∷ []

abbrev listed : Key → Bool
listed k =
    any (λ name. codes_eq (identity_key minecraft name) k) ("cow" ∷ "elk" ∷ "owl" ∷ "bee" ∷ [])

abbrev on : Services → Key → Bool
on sv k = (reconcile sv minecraft wanted_now listed table).0.actual k

-- Fox is added, Cow and Elk go, Owl and Bee were there and stay.
run_changes :
    (on answering (codes "fox") ≡ true)
    × (on answering (codes "cow") ≡ false)
    × (on answering (codes "elk") ≡ false)
    × (on answering (codes "owl") ≡ true)
    × (on answering (codes "bee") ≡ true)
unfolding reconcile find_row to_lower is_desired desired_owner set_for_identity
run_changes = (refl, refl, refl, refl, refl)

-- Only Fox has a row then: Owl was on the list without HOGS.
run_rows :
    (reconcile answering minecraft wanted_now listed table).0.rows
    ≡ (record { user = "ann"; name = "Fox" } ∷ [])
unfolding reconcile find_row to_lower is_desired desired_owner set_for_identity
run_rows = refl

-- Ann now plays as Fox and Ben as Cow, which was Ann's: Cow stays, and nobody has its row.
moved_rows :
    owns minecraft
      (codes "cow")
      (reconcile answering minecraft (("ann", "Fox") ∷ ("ben", "Cow") ∷ []) listed table).0.rows
    ≡ false
unfolding reconcile owns find_row to_lower is_desired desired_owner set_for_identity
moved_rows = refl

table-IsUnique : IsUnique table
unfolding IsUnique find_row
table-IsUnique = (refl, (refl, tt))

reconcile-completes_example :
    ((reconcile answering minecraft wanted_now listed table).1 ≡ true)
    × ((k : Key)
        → (reconcile answering minecraft wanted_now listed table).0.actual k
          ≡ (is_desired minecraft wanted_now k || (listed k && not (owns minecraft k table))))
reconcile-completes_example =
    reconcile-completes answering minecraft wanted_now (λ c. refl) (λ w. refl) listed table
      table-IsUnique

reconcile-ownership_example :
    All
      (λ r.
        (is_desired minecraft wanted_now (identity_key minecraft r.name)
          && (owns minecraft (identity_key minecraft r.name) table
              || not (listed (identity_key minecraft r.name))))
        ≡ true)
      (reconcile answering minecraft wanted_now listed table).0.rows
unfolding reconcile find_row to_lower is_desired desired_owner set_for_identity
reconcile-ownership_example = reconcile-ownership answering minecraft wanted_now listed table refl

-- Bee stays through a run that fails, one in which it is wanted, and one in which it is not.
abbrev three_runs : List (Services × Desired)
three_runs = (failing, wanted_now) ∷ (answering, ("ben", "Bee") ∷ []) ∷ (answering, wanted_now) ∷ []

runs_keep_manual_example :
    ((runs minecraft three_runs (listed, table)).0 (codes "bee") ≡ true)
    × (owns minecraft (codes "bee") (runs minecraft three_runs (listed, table)).1 ≡ false)
unfolding owns to_lower identity_key
runs_keep_manual_example =
    runs_keep_manual minecraft (codes "bee") three_runs listed table refl refl
