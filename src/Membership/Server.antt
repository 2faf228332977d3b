-- ===== src/Membership/Server.antt =====
-- api/whitelist_reconciler.go: `ReconcileServer` for a server that is loaded, from the mode of its
-- join enforcement on. What the store and the game server answer is given; the reconciliation of the
-- native administrators, which runs before and does not affect the result, is not modelled.
pub mod Joined
mod Tests
use hogs.Prelude.{String, Bool, true, false, not, ◌&&◌, ◌||◌, List, ◌==◌, any, if◌then◌else◌}
use hogs.Prelude.Text.{codes_eq}
use hogs.Prelude.Fallible.{Result, ok, err}
use hogs.Access.{Grant}
use hogs.Membership.Identity.{Key, Driver, User, Desired, Row, identity_key, gather}
use hogs.Membership.Whitelist.{Services, Part, reconcile}

-- `JoinWhitelistEnabled`
unfoldable pub join_whitelist_enabled : String → Bool → Bool
join_whitelist_enabled mode supports =
    if mode == "whitelist" then supports else if mode == "password" then false else supports

-- The map `actual`, from the names on the server's list.
unfoldable pub actual_of : Driver → List String → Key → Bool
actual_of d entries k = any (λ name. codes_eq (identity_key d name) k) entries

-- A run that did not start, for an error or because the whitelist is not enforced, or one that did.
pub data Outcome : Type 0 where
  failed skipped : Outcome
  ran : Part → Outcome

with_rows :
    Services → Driver → List String → Result String Desired → Result String (List Row) → Outcome
unfolding actual_of
with_rows sv d entries (err e) rows = Outcome.failed
with_rows sv d entries (ok desired) (err e) = Outcome.failed
with_rows sv d entries (ok desired) (ok rows) =
    Outcome.ran (reconcile sv d desired (actual_of d entries) rows)

with_entries :
    Services
    → Driver
    → Result String (List Grant)
    → Result String (List String)
    → Result String (List User)
    → Result String (List Row)
    → Outcome
unfolding with_rows
with_entries sv d grants (err e) users rows = Outcome.failed
with_entries sv d grants (ok entries) (err e) rows = Outcome.failed
with_entries sv d grants (ok entries) (ok users) rows =
    with_rows sv d entries (gather d grants "server.join" users) rows

-- `has_backend` tells whether the server has a management backend that manages whitelists.
unfoldable pub reconcile_server :
    Services
    → Driver
    → Result String String
    → Bool
    → Bool
    → Result String (List Grant)
    → Result String (List String)
    → Result String (List User)
    → Result String (List Row)
    → Outcome
unfolding join_whitelist_enabled with_entries
reconcile_server sv d (err e) supports has_backend grants entries users rows = Outcome.failed
reconcile_server sv d (ok mode) supports has_backend grants entries users rows =
    if not (join_whitelist_enabled mode supports) || d.identity_provider == ""
    then Outcome.skipped
    else if not has_backend
    then Outcome.failed
    else with_entries sv d grants entries users rows
