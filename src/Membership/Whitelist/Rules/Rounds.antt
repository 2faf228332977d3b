-- ===== src/Membership/Whitelist/Rules/Rounds.antt =====
-- What one round of each loop of the reconciler leaves.
use hogs.Prelude.{
  contradicts, String, Bool, true, false, not, ◌&&◌, ◌||◌, Option, none, some, List, ◌==◌, ◌≡◌,
  refl, sym, ap, ◌∙◌, arith, Bool-cases, inl, inr,
}
use hogs.Prelude.Text.{codes_eq→eq}
use hogs.Membership.Identity.{
  Key, Driver, Desired, Row, identity_key, identities_equal, is_desired, desired_owner, find_row,
  without_user,
}
use hogs.Membership.Whitelist.{
  Services, Sync, Part, goes_on, ◌>>=◌, store_delete, add_missing, drop_former, settle, admit,
  revoke, hand_over,
}
use hogs.Membership.Whitelist.Rules.{
  After, After-bind, After-weaken, key_eq, Becomes, dropped, settled, passed_on, revoked_rows,
}
use hogs.Membership.Whitelist.Rules.Steps.{
  add_missing_lem, remove_present_lem, store_set_lem, store_delete_lem,
}

module _ (sv : Services) (d : Driver) where
  module _ (desired : Desired) where
    settle_lem :
        (former : Option Row) (was_there : Bool) (user name : String) (w : Sync)
        → After
            (Becomes w.actual (settled d desired former was_there user name w.rows) w.owned)
            (settle sv d desired former was_there user name w)
    unfolding settle settled
    settle_lem none true user name w = record {
      entries = λ k. refl;
      rows_are = refl;
      owned_are = refl;
    }
    settle_lem none false user name w = store_set_lem sv d user name w
    settle_lem (some r) was_there user name w =
        elim (Bool-cases (identities_equal d r.name name || not was_there)) [
          | inl e ↦ rw e (store_set_lem sv d user name w)
          | inr e ↦ rw e (store_delete_lem sv d user w)
        ]

    not_same :
        (a b : String)
        → is_desired d desired (identity_key d a) ≡ false
        → is_desired d desired (identity_key d b) ≡ true
        → identities_equal d a b ≡ false
    unfolding identities_equal
    not_same a b h k = elim (Bool-cases (key_eq (identity_key d a) (identity_key d b))) [
      | inl e ↦
          absurd (contradicts (sym k ∙ ap (is_desired d desired) (sym (codes_eq→eq _ _ e)) ∙ h))
      | inr e ↦ e
    ]

    drop_former_lem :
        (former : Option Row) (name : String) (w : Sync)
        → is_desired d desired (identity_key d name) ≡ true
        → After
            (Becomes (λ k. not (dropped d desired former k) && w.actual k) w.rows w.owned)
            (drop_former sv d desired former name w)
    unfolding drop_former dropped
    drop_former_lem none name w h = record {
      entries = λ k. refl;
      rows_are = refl;
      owned_are = refl;
    }
    drop_former_lem (some r) name w h =
        elim (Bool-cases (is_desired d desired (identity_key d r.name))) [
          | inl e ↦
              let t : (not (identities_equal d r.name name)
                    && not (is_desired d desired (identity_key d r.name)))
                  ≡ false =
                ground (arith, e) in
              rw t (record { entries = λ k. rw e refl; rows_are = refl; owned_are = refl })
          | inr e ↦
              let t : identities_equal d r.name name ≡ false = not_same r.name name e h in
              rw (t, e) (remove_present_lem sv d r.name w)
        ]

    after_drop :
        (former : Option Row) (k₀ : Key → Bool) (w v u : Sync)
        → Becomes k₀ w.rows w.owned v
        → Becomes (λ k. not (dropped d desired former k) && v.actual k) v.rows v.owned u
        → Becomes (λ k. not (dropped d desired former k) && k₀ k) w.rows w.owned u
    after_drop former k₀ w v u b c = record {
      entries =
          λ k. c.entries k ∙ ap (λ (x : Bool). not (dropped d desired former k) && x) (b.entries k);
      rows_are = c.rows_are ∙ b.rows_are;
      owned_are = c.owned_are ∙ b.owned_are;
    }

    after_settle :
        (former : Option Row) (was_there : Bool) (user name : String) (k₁ : Key → Bool)
        (w v u : Sync)
        → Becomes k₁ w.rows w.owned v
        → Becomes v.actual (settled d desired former was_there user name v.rows) v.owned u
        → Becomes k₁ (settled d desired former was_there user name w.rows) w.owned u
    after_settle former was_there user name k₁ w v u b c = record {
      entries = λ k. c.entries k ∙ b.entries k;
      rows_are = c.rows_are ∙ ap (settled d desired former was_there user name) b.rows_are;
      owned_are = c.owned_are ∙ b.owned_are;
    }

    -- What one round of the loop over the users who are wanted leaves.
    pub admit_lem :
        (user name : String) (w : Sync)
        → is_desired d desired (identity_key d name) ≡ true
        → After
            (Becomes
              (λ k.
                not (dropped d desired (find_row user w.owned) k)
                && (key_eq (identity_key d name) k || w.actual k))
              (settled d desired
                (find_row user w.owned)
                (w.actual (identity_key d name))
                user
                name
                w.rows)
              (without_user user w.owned))
            (admit sv d desired (user, name) w)
    unfolding admit
    admit_lem user name w h =
        let former = find_row user w.owned in
        let was_there = w.actual (identity_key d name) in
        let k₀ : Key → Bool = λ k. key_eq (identity_key d name) k || w.actual k in
        let k₁ : Key → Bool = λ k. not (dropped d desired former k) && k₀ k in
        let settled_rows = settled d desired former was_there user name w.rows in
        let A₀ = Becomes k₀ w.rows w.owned in
        let A₁ = Becomes k₁ w.rows w.owned in
        let A₂ = Becomes k₁ settled_rows w.owned in
        let second =
          After-bind A₀ A₁ (add_missing sv d name w) (drop_former sv d desired former name)
            (add_missing_lem sv d name w)
            (λ v b.
              After-weaken _ A₁ _ (drop_former_lem former name v h)
                (λ u c. after_drop former k₀ w v u b c)) in
        let third =
          After-bind A₁ A₂ _ (settle sv d desired former was_there user name) second (λ v b.
            After-weaken _ A₂ _ (settle_lem former was_there user name v)
              (λ u c. after_settle former was_there user name k₁ w v u b c)) in
        After-bind A₂ (Becomes k₁ settled_rows (without_user user w.owned)) _
          (λ u. goes_on (record u { owned = without_user user u.owned })) third
          (λ v b. record {
            entries = b.entries;
            rows_are = b.rows_are;
            owned_are = ap (without_user user) b.owned_are;
          })

    hand_over_lem :
        (to : Option String) (stale : Row) (w : Sync)
        → After
            (Becomes w.actual (passed_on d desired to stale w.rows) w.owned)
            (hand_over sv d desired to stale w)
    unfolding hand_over passed_on
    hand_over_lem none stale w = record { entries = λ k. refl; rows_are = refl; owned_are = refl }
    hand_over_lem (some recipient) stale w = elim (Bool-cases (recipient == stale.user)) [
      | inl e ↦ rw e (record { entries = λ k. refl; rows_are = refl; owned_are = refl })
      | inr e ↦ rw e (store_set_lem sv d recipient stale.name w)
    ]

    then_deleted :
        (user : String) (a : Key → Bool) (r o : List Row) (m : Part)
        → After (Becomes a r o) m
        → After (Becomes a (without_user user r) o) (m >>= store_delete sv d user)
    then_deleted user a r o m h =
        After-bind (Becomes a r o) (Becomes a (without_user user r) o) m (store_delete sv d user) h
          (λ v b.
            After-weaken (Becomes v.actual (without_user user v.rows) v.owned)
              (Becomes a (without_user user r) o) _ (store_delete_lem sv d user v)
              (λ u c. record {
                entries = λ k. c.entries k ∙ b.entries k;
                rows_are = c.rows_are ∙ ap (without_user user) b.rows_are;
                owned_are = c.owned_are ∙ b.owned_are;
              }))

    -- What one round of the loop over the rows of the others leaves.
    pub revoke_lem :
        (stale : Row) (w : Sync)
        → After
            (Becomes
              (λ k. not (dropped d desired (some stale) k) && w.actual k)
              (revoked_rows d desired stale w.rows)
              w.owned)
            (revoke sv d desired stale w)
    unfolding revoke revoked_rows dropped
    revoke_lem stale w = elim (Bool-cases (is_desired d desired (identity_key d stale.name))) [
      | inl e ↦ rw e (
          then_deleted stale.user w.actual
            (passed_on d desired (desired_owner d desired (identity_key d stale.name)) stale w.rows)
            w.owned _ (hand_over_lem (desired_owner d desired (identity_key d stale.name)) stale w))
      | inr e ↦
          rw e (then_deleted stale.user _ w.rows w.owned _ (remove_present_lem sv d stale.name w))
    ]
