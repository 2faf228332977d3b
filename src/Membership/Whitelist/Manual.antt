-- ===== src/Membership/Whitelist/Manual.antt =====
-- The entries that somebody else put on the game server's list: what a run does with them, also one
-- that fails on its way.
mod Steps
use hogs.Prelude.{
  String, Bool, true, false, not, ◌&&◌, Option, none, some, List, [], ◌∷◌, ◌==◌, keep,
  if◌then◌else◌, ◌≡◌, refl, sym, ap, ◌∙◌, arith, Bool-cases, inl, inr,
}
use hogs.Prelude.Text.{codes_eq→eq}
use hogs.Membership.Identity.{
  Key, Driver, Desired, Row, identity_key, identities_equal, is_desired, desired_owner, find_row,
  without_user, owns, set_for_identity,
}
use hogs.Membership.Whitelist.{
  Services, Command, Write, Sync, Part, goes_on, ◌>>=◌, send_add, send_remove, store_set,
  store_delete, add_missing, remove_present, drop_former, settle, admit, admit_all, hand_over,
  revoke, revoke_all, reconcile,
}
use hogs.Membership.Whitelist.Entries.{key_of}
use hogs.Membership.Whitelist.Rules.{same_key, key_eq}
use hogs.Membership.Whitelist.Manual.Steps.{
  Always, Always-bind, Manual, owns-keep, key_of-find_row, added_other, add_missing-Manual,
  remove_present-Manual, store_set-Manual, store_delete-Manual,
}

module _ (d : Driver) (k : Key) (sv : Services) (desired : Desired) where
  drop_former-Manual :
      (former : Option Row) (name : String) (w : Sync)
      → key_of d former k ≡ false
      → Manual d k w
      → Always (Manual d k) (drop_former sv d desired former name w)
  unfolding drop_former
  drop_former-Manual none name w n m = m
  drop_former-Manual (some r) name w n m =
      elim (Bool-cases (
        not (identities_equal d r.name name)
        && not (is_desired d desired (identity_key d r.name)))) [
          | inl e ↦ rw e (remove_present-Manual d k sv r.name w n m)
          | inr e ↦ rw e m
        ]

  settle-Manual :
      (former : Option Row) (was_there : Bool) (u name : String) (w : Sync)
      → key_of d former k ≡ false
      → (key_eq (identity_key d name) k && not was_there) ≡ false
      → Manual d k w
      → Always (Manual d k) (settle sv d desired former was_there u name w)
  unfolding settle
  settle-Manual none true u name w n t m = m
  settle-Manual none false u name w n t m = store_set-Manual d k sv u name w (ground (arith, t)) m
  settle-Manual (some r) was_there u name w n t m =
      elim (Bool-cases (identities_equal d r.name name)) [
        | inl e ↦
            let same = ap (λ (x : Key). key_eq x k) (same_key d r.name name e) in
            rw e (store_set-Manual d k sv u name w (sym same ∙ n) m)
        | inr e ↦ elim (Bool-cases was_there) [
          | inl b ↦ rw (e, b) (store_delete-Manual d k sv u w m)
          | inr b ↦ rw (e, b) (store_set-Manual d k sv u name w (ground (arith, t, b)) m)
        ]
      ]

  admit-Manual :
      (u name : String) (w : Sync)
      → Manual d k w
      → Always (Manual d k) (admit sv d desired (u, name) w)
  unfolding admit without_user
  admit-Manual u name w m =
      let former = find_row u w.owned in
      let was_there = w.actual (identity_key d name) in
      let n = key_of-find_row d k u w.owned m.not_owned in
      let added = add_missing sv d name w in
      let dropped = drop_former sv d desired former name in
      let settled = settle sv d desired former was_there u name in
      let second =
        Always-bind (Manual d k) added dropped (add_missing-Manual d k sv name w m)
          (λ v. drop_former-Manual former name v n) in
      let third =
        Always-bind (Manual d k) (added >>= dropped) settled second
          (λ v. settle-Manual former was_there u name v n (added_other d k name w m)) in
      Always-bind (Manual d k) (added >>= dropped >>= settled)
        (λ v. goes_on (record v { owned = without_user u v.owned })) third
        (λ v l. record {
          there = l.there;
          no_row = l.no_row;
          not_owned = owns-keep d k (λ r. not (r.user == u)) v.owned l.not_owned;
        })

  admit_all-Manual :
      (rest : Desired) (w : Sync)
      → Manual d k w
      → Always (Manual d k) (admit_all sv d desired rest w)
  unfolding admit_all
  admit_all-Manual [] w m = m
  admit_all-Manual ((u, name) ∷ rest) w m =
      Always-bind (Manual d k) (admit sv d desired (u, name) w) _ (admit-Manual u name w m)
        (admit_all-Manual rest)

  hand_over-Manual :
      (to : Option String) (stale : Row) (w : Sync)
      → key_eq (identity_key d stale.name) k ≡ false
      → Manual d k w
      → Always (Manual d k) (hand_over sv d desired to stale w)
  unfolding hand_over
  hand_over-Manual none stale w n m = m
  hand_over-Manual (some u) stale w n m = elim (Bool-cases (u == stale.user)) [
    | inl e ↦ rw e m
    | inr e ↦ rw e (store_set-Manual d k sv u stale.name w n m)
  ]

  revoke-Manual :
      (stale : Row) (w : Sync)
      → key_eq (identity_key d stale.name) k ≡ false
      → Manual d k w
      → Always (Manual d k) (revoke sv d desired stale w)
  unfolding revoke
  revoke-Manual stale w n m =
      Always-bind (Manual d k)
        (if is_desired d desired (identity_key d stale.name)
          then hand_over sv d desired (desired_owner d desired (identity_key d stale.name)) stale w
          else remove_present sv d stale.name w)
        (store_delete sv d stale.user)
        (elim (Bool-cases (is_desired d desired (identity_key d stale.name))) [
          | inl e ↦
              rw e
                (hand_over-Manual (desired_owner d desired (identity_key d stale.name)) stale w n m)
          | inr e ↦ rw e (remove_present-Manual d k sv stale.name w n m)
        ])
        (store_delete-Manual d k sv stale.user)

  revoke_all-Manual :
      (stale : List Row) (w : Sync)
      → owns d k stale ≡ false
      → Manual d k w
      → Always (Manual d k) (revoke_all sv d desired stale w)
  unfolding revoke_all owns
  revoke_all-Manual [] w n m = m
  revoke_all-Manual (r ∷ stale) w n m =
      Always-bind (Manual d k) (revoke sv d desired r w) _ (revoke-Manual r w (ground (arith, n)) m)
        (λ v. revoke_all-Manual stale v (ground (arith, n)))

module _ (d : Driver) where
  -- One run with its services and the users who are wanted then; the lists of the next run are those
  -- that it left.
  abbrev pub runs : List (Services × Desired) → (Key → Bool) × List Row → (Key → Bool) × List Row
  runs [] s = s
  runs ((sv, desired) ∷ later) s =
      let w = (reconcile sv d desired s.0 s.1).0 in runs later (w.actual, w.rows)

  reconcile-Manual :
      (k : Key) (sv : Services) (desired : Desired) (actual : Key → Bool) (rows : List Row)
      → actual k ≡ true
      → owns d k rows ≡ false
      → Manual d k (reconcile sv d desired actual rows).0
  unfolding reconcile
  reconcile-Manual k sv desired actual rows h n =
      let w₀ : Sync = record {
        actual = actual;
        rows = rows;
        owned = rows;
        added = 0;
        removed = 0;
      } in
      let m₀ : Manual d k w₀ = record { there = h; no_row = n; not_owned = n } in
      Always-bind (Manual d k) (admit_all sv d desired desired w₀)
        (λ w. revoke_all sv d desired w.owned w) (admit_all-Manual d k sv desired desired w₀ m₀)
        (λ w m. revoke_all-Manual d k sv desired w.owned w m.not_owned m)

  -- An entry that is on the server and for which HOGS has no row stays there, and without a row,
  -- through any number of runs, whoever is wanted in them and whichever of their requests fail.
  pub runs_keep_manual :
      (k : Key) (rs : List (Services × Desired)) (actual : Key → Bool) (rows : List Row)
      → actual k ≡ true
      → owns d k rows ≡ false
      → ((runs rs (actual, rows)).0 k ≡ true) × (owns d k (runs rs (actual, rows)).1 ≡ false)
  runs_keep_manual k [] actual rows h n = (h, n)
  runs_keep_manual k ((sv, desired) ∷ rs) actual rows h n =
      let m = reconcile-Manual k sv desired actual rows h n in
      runs_keep_manual k rs _ _ m.there m.no_row
