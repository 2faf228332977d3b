-- ===== src/Membership/Whitelist/Ownership.antt =====
-- The rows of the store after a run: whose entries HOGS calls its own.
mod Table
use mathlib.Core.Path.{subst}
use hogs.Prelude.{
  contradicts, String, Bool, true, false, not, ◌&&◌, ◌||◌, Option, none, some, List, [], ◌∷◌, ◌==◌,
  keep, All, any, eq_iff, eq_refl, ◌≡◌, refl, sym, ap, ◌∙◌, arith, Bool-cases, inl, inr,
}
use hogs.Prelude.Text.{codes_eq, codes_eq_refl}
use hogs.Membership.Identity.{
  Key, Driver, Desired, Row, identity_key, identities_equal, is_desired, desired_owner, find_row,
  without_user, owns, set_for_identity,
}
use hogs.Membership.Whitelist.{Services, Sync, admit, admit_all, revoke, revoke_all, reconcile}
use hogs.Membership.Whitelist.Rules.Rounds.{admit_lem, revoke_lem}
use hogs.Membership.Whitelist.Rules.{
  same_key, After, After-bind, After-weaken, After-holds, All-any, Becomes, settled, passed_on,
  revoked_rows,
}
use hogs.Membership.Whitelist.Entries.{desired_wanted, dropped-desired, without_user_absent}
use hogs.Membership.Whitelist.Ownership.Table.{
  may_own, Settled, Known, Known-without_user, Known-find_row, Settled-settled, Settled-done,
  Settled-revoked, has_row,
}

module _ (d : Driver) (desired : Desired) (before : Key → Bool) (at_start : List Row) where
  -- What holds through the loop over the users who are wanted.
  record Loop (w : Sync) : Type 0 where
    map_known : Known d desired before at_start w.owned
    rows_settled : Settled d desired before at_start w.owned w.rows
    grown : (k : Key) → is_desired d desired k ≡ true → (w.actual k || not (before k)) ≡ true

  module _ (sv : Services) where
    admit-Loop :
        (u name : String) (w : Sync)
        → is_desired d desired (identity_key d name) ≡ true
        → Loop w
        → After Loop (admit sv d desired (u, name) w)
    admit-Loop u name w h l =
        After-weaken (Becomes _ _ _) Loop (admit sv d desired (u, name) w)
          (admit_lem sv d desired u name w h)
          (λ v b. record {
            map_known =
                subst (Known d desired before at_start) (sym b.owned_are)
                  (Known-without_user d desired before at_start u w.owned l.map_known);
            rows_settled =
                rw (b.owned_are, b.rows_are)
                  (Settled-settled d desired before at_start (find_row u w.owned)
                    (w.actual (identity_key d name)) u name w.owned w.rows refl
                    (Known-find_row d desired before at_start u w.owned l.map_known) h
                    (l.grown (identity_key d name) h) l.rows_settled);
            grown = λ k wanted.
                let e = b.entries k in
                let n = dropped-desired d desired (find_row u w.owned) k wanted in
                let g = l.grown k wanted in ground (arith, e, n, g);
          })

    admit_all-Loop :
        (rest : Desired) (w : Sync)
        → All (λ want. is_desired d desired (identity_key d want.1) ≡ true) rest
        → Loop w
        → After Loop (admit_all sv d desired rest w)
    unfolding admit_all
    admit_all-Loop [] w a l = l
    admit_all-Loop ((u, name) ∷ rest) w (a, all) l =
        After-bind Loop Loop (admit sv d desired (u, name) w) (admit_all sv d desired rest)
          (admit-Loop u name w a l) (λ v. admit_all-Loop rest v all)

    -- The loop over the rows of the others.
    revoke_all-Settled :
        (stale : List Row) (w : Sync)
        → Known d desired before at_start stale
        → Settled d desired before at_start stale w.rows
        → After (λ v. Settled d desired before at_start [] v.rows) (revoke_all sv d desired stale w)
    unfolding revoke_all
    revoke_all-Settled [] w k s = s
    revoke_all-Settled (r ∷ stale) w (a, k) s =
        After-bind (Becomes _ _ _) (λ v. Settled d desired before at_start [] v.rows)
          (revoke sv d desired r w) (revoke_all sv d desired stale) (revoke_lem sv d desired r w)
          (λ v b. revoke_all-Settled stale v k (
            subst (Settled d desired before at_start stale) (sym b.rows_are)
              (Settled-revoked d desired before at_start r stale w.rows a s)))

module _ (sv : Services) (d : Driver) (desired : Desired) where
  start_Loop :
      (actual : Key → Bool) (rows : List Row)
      → Loop d desired actual rows
          (record { actual = actual; rows = rows; owned = rows; added = 0; removed = 0 })
  unfolding owns
  start_Loop actual rows = record {
    map_known =
        All-any (λ (a b : Row). codes_eq (identity_key d a.name) (identity_key d b.name))
          (λ r. owns d (identity_key d r.name) rows) rows
          (λ r. codes_eq_refl (identity_key d r.name)) (λ r e. e);
    rows_settled =
        All-any (λ (a b : Row). a.user == b.user)
          (λ r. may_own d desired actual rows (identity_key d r.name) || has_row r.user rows) rows
          (λ r. eq_refl r.user) (λ r e. ground (arith, e));
    grown = λ k h. ground arith;
  }

  -- After a run that completes, each row of the store stands for an identity that is wanted, and
  -- that had a row before the run or was not on the server: an entry that was there is never adopted.
  pub reconcile-ownership :
      (actual : Key → Bool) (rows : List Row)
      → (reconcile sv d desired actual rows).1 ≡ true
      → All
          (λ r.
            (is_desired d desired (identity_key d r.name)
              && (owns d (identity_key d r.name) rows || not (actual (identity_key d r.name))))
            ≡ true)
          (reconcile sv d desired actual rows).0.rows
  unfolding reconcile
  reconcile-ownership actual rows h =
      Settled-done d desired actual rows (reconcile sv d desired actual rows).0.rows (
        After-holds (λ v. Settled d desired actual rows [] v.rows)
          (reconcile sv d desired actual rows)
          (After-bind (Loop d desired actual rows) (λ v. Settled d desired actual rows [] v.rows)
            (admit_all sv d desired desired
              (record { actual = actual; rows = rows; owned = rows; added = 0; removed = 0 }))
            (λ w. revoke_all sv d desired w.owned w)
            (admit_all-Loop d desired actual rows sv desired _ (desired_wanted d desired)
              (start_Loop actual rows))
            (λ w l.
              revoke_all-Settled d desired actual rows sv w.owned w l.map_known l.rows_settled))
          h)
