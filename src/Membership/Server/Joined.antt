-- ===== src/Membership/Server/Joined.antt =====
-- Who is on the list of a server after its reconciliation.
use hogs.Prelude.{
  String, Bool, true, false, not, ◌&&◌, ◌||◌, List, ◌==◌, any, if◌then◌else◌, ◌≡◌, refl, sym, ap,
  ◌∙◌,
}
use hogs.Prelude.Text.{codes_eq}
use hogs.Prelude.Fallible.{Result, ok, err}
use hogs.Access.{Grant}
use hogs.Membership.Identity.{Key, Driver, User, Desired, Row, identity_key, gather, owns}
use hogs.Membership.Identity.Eligibility.{is_eligible, gather-is_desired}
use hogs.Membership.Whitelist.{Services, Sync, Part, reconcile}
use hogs.Membership.Whitelist.Entries.{IsUnique, reconcile-entries}
use hogs.Membership.Server.{
  Outcome, actual_of, join_whitelist_enabled, with_rows, with_entries, reconcile_server,
}

abbrev part_or : Part → Outcome → Part
part_or other (Outcome.ran p) = p
part_or other outcome = other

module _ (sv : Services) (d : Driver) (grants : Result String (List Grant)) (entries : List String)
    (users : List User) (rows : List Row) (unique : IsUnique rows) where
  -- An entry is wanted, or was there and HOGS did not own it.
  abbrev is_let_in : Key → Bool
  is_let_in k =
      any
        (λ user. is_eligible d grants "server.join" user (λ name. codes_eq (identity_key d name) k))
        users
      || actual_of d entries k && not (owns d k rows)

  with_rows_lem :
      (desired : Result String Desired) (w : Sync) (k : Key)
      → gather d grants "server.join" users ≡ desired
      → with_rows sv d entries desired (ok rows) ≡ Outcome.ran (w, true)
      → w.actual k ≡ is_let_in k
  unfolding with_rows
  with_rows_lem (err e) w k g h = absurd (cc)
  with_rows_lem (ok desired) w k g h =
      let same : reconcile sv d desired (actual_of d entries) rows ≡ (w, true) =
        ap (part_or (w, true)) h in
      ap (λ (p : Part). p.0.actual k) (sym same)
      ∙ reconcile-entries d desired sv (actual_of d entries) rows k unique
          (ap (λ (p : Part). p.1) same)
      ∙ ap (λ (b : Bool). b || actual_of d entries k && not (owns d k rows))
          (gather-is_desired d grants "server.join" users desired k g)

  guards_lem :
      (off missing : Bool) (w : Sync) (k : Key)
      → (if off
          then Outcome.skipped
          else if missing
          then Outcome.failed
          else with_entries sv d grants (ok entries) (ok users) (ok rows))
        ≡ Outcome.ran (w, true)
      → w.actual k ≡ is_let_in k
  unfolding with_entries
  guards_lem true missing w k h = absurd (cc)
  guards_lem false true w k h = absurd (cc)
  guards_lem false false w k h = with_rows_lem (gather d grants "server.join" users) w k refl h

  -- After a reconciliation that completes, an identity is on the server's list exactly if it is the
  -- verified identity of a user who is active and may join or is an administrator, or it was there
  -- and HOGS had no row for it. Usernames are unique in the table.
  pub reconcile_server-is_eligible :
      (mode : Result String String) (supports has_backend : Bool) (w : Sync) (k : Key)
      → reconcile_server sv d mode supports has_backend grants (ok entries) (ok users) (ok rows)
        ≡ Outcome.ran (w, true)
      → w.actual k ≡ (
          any
            (λ user.
              is_eligible d grants "server.join" user (λ name. codes_eq (identity_key d name) k))
            users
          || actual_of d entries k && not (owns d k rows))
  unfolding reconcile_server with_entries
  reconcile_server-is_eligible (err e) supports has_backend w k h = absurd (cc)
  reconcile_server-is_eligible (ok mode) supports has_backend w k h =
      guards_lem (not (join_whitelist_enabled mode supports) || d.identity_provider == "")
        (not has_backend) w k h
