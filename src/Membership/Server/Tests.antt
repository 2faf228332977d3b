-- ===== src/Membership/Server/Tests.antt =====
-- The reconciliation of a server that Ann may join.
use hogs.Prelude.{String, true, not, ◌&&◌, ◌||◌, List, [], ◌∷◌, any, ◌≡◌, refl, ap}
use hogs.Prelude.Text.{codes, codes_eq, to_lower}
use hogs.Prelude.Fallible.{ok}
use hogs.Membership.Identity.{Row, owns, identity_key, is_desired, desired_owner, find_row}
use hogs.Membership.Identity.Eligibility.{is_eligible}
use hogs.Membership.Identity.Tests.{minecraft, grant, users, gathered_users}
use hogs.Membership.Whitelist.{Services, Sync, reconcile}
use hogs.Membership.Whitelist.Entries.{IsUnique}
use hogs.Membership.Server.{Outcome, with_rows, with_entries, actual_of, reconcile_server}
use hogs.Membership.Server.Joined.{reconcile_server-is_eligible}

abbrev answering : Services
answering = record { sends = λ c. true; stores = λ w. true }

abbrev table : List Row
table = record { user = "cat"; name = "Elk" } ∷ []

abbrev listed : List String
listed = "Elk" ∷ "Bee" ∷ []

abbrev after : Sync
after = (reconcile answering minecraft (("ann", "Fox") ∷ []) (actual_of minecraft listed) table).0

not_enforced :
    reconcile_server answering minecraft
      (ok "password")
      true
      true
      (ok (grant ∷ []))
      (ok listed)
      (ok users)
      (ok table)
    ≡ Outcome.skipped
unfolding reconcile_server
not_enforced = refl

completes :
    reconcile_server answering minecraft
      (ok "auto")
      true
      true
      (ok (grant ∷ []))
      (ok listed)
      (ok users)
      (ok table)
    ≡ Outcome.ran (after, true)
unfolding reconcile_server with_entries with_rows reconcile find_row is_desired desired_owner
    to_lower actual_of identity_key
completes = ap (λ g. with_rows answering minecraft listed g (ok table)) gathered_users

table-IsUnique : IsUnique table
unfolding IsUnique find_row
table-IsUnique = (refl, tt)

reconcile_server-is_eligible_example : after.actual (codes "bee") ≡ (
    any
      (λ user.
        is_eligible minecraft
          (ok (grant ∷ []))
          "server.join"
          user
          (λ name. codes_eq (identity_key minecraft name) (codes "bee")))
      users
    || actual_of minecraft listed (codes "bee") && not (owns minecraft (codes "bee") table))
reconcile_server-is_eligible_example =
    reconcile_server-is_eligible answering minecraft (ok (grant ∷ [])) listed users table
      table-IsUnique (ok "auto") true true after (codes "bee") completes
