-- ===== src/Membership/Whitelist/Entries.antt =====
-- The list on the game server after a run.
use mathlib.Core.Path.{subst}
use hogs.Prelude.{
  contradicts, String, Bool, true, false, not, ◌&&◌, ◌||◌, Option, none, some, List, [], ◌∷◌, ◌==◌,
  All, eq_iff, ◌≡◌, refl, sym, ap, ◌∙◌, arith, Bool-cases, inl, inr,
}
use hogs.Prelude.Text.{codes_eq, codes_eq→eq, codes_eq_refl}
use hogs.Membership.Identity.{
  Key, Driver, Desired, Row, identity_key, is_desired, find_row, without_user, owns,
}
use hogs.Membership.Whitelist.{Services, Sync, admit_all, revoke_all, reconcile}
use hogs.Membership.Whitelist.Rules.Rounds.{admit_lem, revoke_lem}
use hogs.Membership.Whitelist.Rules.{
  After, After-bind, After-weaken, After-holds, All-any, key_eq, Becomes, dropped,
}

-- One row for a user, as the store's table has it.
unfoldable pub IsUnique : List Row → Type 0
IsUnique [] = Unit
IsUnique (r ∷ rows) = (find_row r.user rows ≡ none) × IsUnique rows

find_row-without_user :
    (u v : String) (rows : List Row)
    → find_row u rows ≡ none
    → find_row u (without_user v rows) ≡ none
unfolding find_row without_user
find_row-without_user u v [] h = refl
find_row-without_user u v (r ∷ rows) h = ground (arith, find_row-without_user u v rows)

pub without_user-IsUnique :
    (u : String) (rows : List Row) → IsUnique rows → IsUnique (without_user u rows)
unfolding IsUnique without_user
without_user-IsUnique u [] h = tt
without_user-IsUnique u (r ∷ rows) (a, h) = elim (Bool-cases (r.user == u)) [
  | inl e ↦ rw e (without_user-IsUnique u rows h)
  | inr e ↦ rw e (find_row-without_user r.user u rows a, without_user-IsUnique u rows h)
]

pub without_user_absent :
    (u : String) (rows : List Row) → find_row u rows ≡ none → without_user u rows ≡ rows
unfolding find_row without_user
without_user_absent u [] h = refl
without_user_absent u (r ∷ rows) h = ground (arith, without_user_absent u rows)

module _ (d : Driver) where
  abbrev pub key_of : Option Row → Key → Bool
  key_of none k = false
  key_of (some r) k = key_eq (identity_key d r.name) k

  -- The identities of the rows are that of a user's row and those of the others' rows.
  pub owns-without_user :
      (k : Key) (u : String) (rows : List Row)
      → IsUnique rows
      → owns d k rows ≡ (key_of (find_row u rows) k || owns d k (without_user u rows))
  unfolding IsUnique find_row without_user owns
  owns-without_user k u [] h = refl
  owns-without_user k u (r ∷ rows) (a, h) = elim (Bool-cases (r.user == u)) [
    | inl e ↦
        let n : find_row u rows ≡ none =
          subst (λ (x : String). find_row x rows ≡ none) ((eq_iff r.user u).0 e) a in
        let kept = without_user_absent u rows n in rw (e, kept) (ground arith)
    | inr e ↦ let ih = owns-without_user k u rows h in rw e (ground (arith, ih))
  ]

  module _ (desired : Desired) where
    abbrev D : Key → Bool
    D k = is_desired d desired k

    pub dropped-desired :
        (former : Option Row) (k : Key) → D k ≡ true → dropped d desired former k ≡ false
    unfolding dropped
    dropped-desired none k h = refl
    dropped-desired (some r) k h = elim (Bool-cases (key_eq (identity_key d r.name) k)) [
      | inl e ↦
          let same : D (identity_key d r.name) ≡ true = ap D (codes_eq→eq _ _ e) ∙ h in rw same refl
      | inr e ↦ ground (arith, e)
    ]

    dropped-key_of :
        (former : Option Row) (k : Key) → D k ≡ false → dropped d desired former k ≡ key_of former k
    unfolding dropped
    dropped-key_of none k h = refl
    dropped-key_of (some r) k h = elim (Bool-cases (key_eq (identity_key d r.name) k)) [
      | inl e ↦
          let other : D (identity_key d r.name) ≡ false = ap D (codes_eq→eq _ _ e) ∙ h in
          rw (other, e) refl
      | inr e ↦ ground (arith, e)
    ]

    wanted_other :
        (name : String) (k : Key)
        → D (identity_key d name) ≡ true
        → D k ≡ false
        → key_eq (identity_key d name) k ≡ false
    wanted_other name k h g = elim (Bool-cases (key_eq (identity_key d name) k)) [
      | inl e ↦ absurd (contradicts (sym h ∙ ap D (codes_eq→eq _ _ e) ∙ g))
      | inr e ↦ e
    ]

    manual_step :
        (k : Key) (manual : Bool) (user name : String) (w v : Sync)
        → D k ≡ false
        → D (identity_key d name) ≡ true
        → IsUnique w.owned
        → v.owned ≡ without_user user w.owned
        → v.actual k ≡ (
            not (dropped d desired (find_row user w.owned) k)
            && (key_eq (identity_key d name) k || w.actual k))
        → (w.actual k && not (owns d k w.owned)) ≡ manual
        → (v.actual k && not (owns d k v.owned)) ≡ manual
    manual_step k manual user name w v h a u o e p =
        let t₁ = dropped-key_of (find_row user w.owned) k h in
        let t₂ = wanted_other name k a h in
        let t₃ = owns-without_user k user w.owned u in rw (o, e, t₁, t₂) (ground (arith, t₃, p))

    revoked_step :
        (k : Key) (r : Row) (stale : List Row) (a b : Key → Bool)
        → b k ≡ (not (dropped d desired (some r) k) && a k)
        → ((D k || not (owns d k stale)) && b k) ≡ ((D k || not (owns d k (r ∷ stale))) && a k)
    unfolding owns
    revoked_step k r stale a b e = elim (Bool-cases (D k)) [
      | inl h ↦ let t = dropped-desired (some r) k h in rw (e, t, h) refl
      | inr h ↦ let t = dropped-key_of (some r) k h in rw (e, t, h) (ground arith)
    ]

    pub desired_wanted : All (λ want. D (identity_key d want.1) ≡ true) desired
    unfolding is_desired
    desired_wanted =
        All-any (λ a b. codes_eq (identity_key d a.1) (identity_key d b.1))
          (λ want. D (identity_key d want.1)) desired
          (λ want. codes_eq_refl (identity_key d want.1)) (λ want e. e)

    module _ (sv : Services) where
      -- An identity that is wanted and there, or about to be added, is there after the loop.
      admit_all-present :
          (k : Key) (rest : Desired) (w : Sync)
          → D k ≡ true
          → All (λ want. D (identity_key d want.1) ≡ true) rest
          → (w.actual k || is_desired d rest k) ≡ true
          → After (λ v. v.actual k ≡ true) (admit_all sv d desired rest w)
      unfolding admit_all is_desired
      admit_all-present k [] w h a p = ground (arith, p)
      admit_all-present k ((user, name) ∷ rest) w h (a, all) p =
          After-bind (Becomes _ _ _) (λ v. v.actual k ≡ true) _ (admit_all sv d desired rest)
            (admit_lem sv d desired user name w a)
            (λ v b.
              let e = b.entries k in
              let kept = dropped-desired (find_row user w.owned) k h in
              admit_all-present k rest v h all (ground (arith, e, kept, p)))

      -- The entries that HOGS neither wants nor owns are the same before and after the loop.
      admit_all-manual :
          (k : Key) (manual : Bool) (rest : Desired) (w : Sync)
          → D k ≡ false
          → All (λ want. D (identity_key d want.1) ≡ true) rest
          → IsUnique w.owned
          → (w.actual k && not (owns d k w.owned)) ≡ manual
          → After
              (λ v. IsUnique v.owned × ((v.actual k && not (owns d k v.owned)) ≡ manual))
              (admit_all sv d desired rest w)
      unfolding admit_all
      admit_all-manual k manual [] w h a u p = (u, p)
      admit_all-manual k manual ((user, name) ∷ rest) w h (a, all) u p =
          After-bind (Becomes _ _ _)
            (λ x. IsUnique x.owned × ((x.actual k && not (owns d k x.owned)) ≡ manual)) _
            (admit_all sv d desired rest) (admit_lem sv d desired user name w a)
            (λ v b.
              admit_all-manual k manual rest v h all
                (subst IsUnique (sym b.owned_are) (without_user-IsUnique user w.owned u))
                (manual_step k manual user name w v h a u b.owned_are (b.entries k) p))

      revoke_all-entries :
          (k : Key) (stale : List Row) (w : Sync)
          → After
              (λ v. v.actual k ≡ ((D k || not (owns d k stale)) && w.actual k))
              (revoke_all sv d desired stale w)
      unfolding revoke_all owns
      revoke_all-entries k [] w = ground arith
      revoke_all-entries k (r ∷ stale) w =
          After-bind (Becomes _ _ _)
            (λ v. v.actual k ≡ ((D k || not (owns d k (r ∷ stale))) && w.actual k)) _
            (revoke_all sv d desired stale) (revoke_lem sv d desired r w)
            (λ v b.
              After-weaken (λ x. x.actual k ≡ ((D k || not (owns d k stale)) && v.actual k))
                (λ x. x.actual k ≡ ((D k || not (owns d k (r ∷ stale))) && w.actual k))
                (revoke_all sv d desired stale v) (revoke_all-entries k stale v)
                (λ x e. e ∙ revoked_step k r stale w.actual v.actual (b.entries k)))

      start : (Key → Bool) → List Row → Sync
      start actual rows = record {
        actual = actual;
        rows = rows;
        owned = rows;
        added = 0;
        removed = 0;
      }

      wanted_entry :
          (actual : Key → Bool) (rows : List Row) (k : Key)
          → D k ≡ true
          → After (λ v. v.actual k ≡ true) (reconcile sv d desired actual rows)
      unfolding reconcile start
      wanted_entry actual rows k h =
          After-bind (λ v. v.actual k ≡ true) (λ v. v.actual k ≡ true)
            (admit_all sv d desired desired (start actual rows))
            (λ w. revoke_all sv d desired w.owned w)
            (admit_all-present k desired (start actual rows) h desired_wanted (ground (arith, h)))
            (λ w p.
              After-weaken (λ v. v.actual k ≡ ((D k || not (owns d k w.owned)) && w.actual k))
                (λ v. v.actual k ≡ true) (revoke_all sv d desired w.owned w)
                (revoke_all-entries k w.owned w) (λ v e. e ∙ rw (h, p) refl))

      other_entry :
          (actual : Key → Bool) (rows : List Row) (k : Key)
          → D k ≡ false
          → IsUnique rows
          → After
              (λ v. v.actual k ≡ (actual k && not (owns d k rows)))
              (reconcile sv d desired actual rows)
      unfolding reconcile start
      other_entry actual rows k h u =
          let manual = actual k && not (owns d k rows) in
          After-bind (λ v. IsUnique v.owned × ((v.actual k && not (owns d k v.owned)) ≡ manual))
            (λ v. v.actual k ≡ manual) (admit_all sv d desired desired (start actual rows))
            (λ w. revoke_all sv d desired w.owned w)
            (admit_all-manual k manual desired (start actual rows) h desired_wanted u refl)
            (λ w p.
              After-weaken (λ v. v.actual k ≡ ((D k || not (owns d k w.owned)) && w.actual k))
                (λ v. v.actual k ≡ manual) (revoke_all sv d desired w.owned w)
                (revoke_all-entries k w.owned w)
                (λ v e. let q = p.1 in e ∙ rw h (ground (arith, q))))

      -- The list on the server after a run that completes: what is wanted, and the entries that were
      -- there and HOGS did not own. Usernames are unique in the table.
      pub reconcile-entries :
          (actual : Key → Bool) (rows : List Row) (k : Key)
          → IsUnique rows
          → (reconcile sv d desired actual rows).1 ≡ true
          → (reconcile sv d desired actual rows).0.actual k
            ≡ (is_desired d desired k || (actual k && not (owns d k rows)))
      reconcile-entries actual rows k u h = elim (Bool-cases (is_desired d desired k)) [
        | inl e ↦ rw e (
            After-holds (λ v. v.actual k ≡ true) (reconcile sv d desired actual rows)
              (wanted_entry actual rows k e) h)
        | inr e ↦ rw e (
            After-holds (λ v. v.actual k ≡ (actual k && not (owns d k rows)))
              (reconcile sv d desired actual rows) (other_entry actual rows k e u) h)
      ]
