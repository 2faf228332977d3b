-- ===== src/Membership/Whitelist/Manual/Steps.antt =====
-- What each request and each write of a run does with an entry that somebody else put on the list.
use hogs.Prelude.{
  String, Bool, true, false, not, ◌&&◌, List, [], ◌∷◌, ◌==◌, keep, ◌≡◌, refl, ap, arith, Bool-cases,
  inl, inr,
}
use hogs.Prelude.Text.{codes_eq→eq}
use hogs.Membership.Identity.{
  Key, Driver, Row, identity_key, find_row, without_user, owns, set_for_identity,
}
use hogs.Membership.Whitelist.{
  Services, Command, Write, Sync, Part, ◌>>=◌, send_add, send_remove, store_set, store_delete,
  add_missing, remove_present,
}
use hogs.Membership.Whitelist.Entries.{key_of}
use hogs.Membership.Whitelist.Rules.{key_eq}

-- What holds of a part, whether it goes on or not.
abbrev pub Always : (Sync → Type 0) → Part → Type 0
Always P (w, _) = P w

pub Always-bind :
    (P : Sync → Type 0) (m : Part) (f : Sync → Part)
    → Always P m
    → ((w : Sync) → P w → Always P (f w))
    → Always P (m >>= f)
Always-bind P (w, true) f h k = k w h
Always-bind P (w, false) f h k = h

module _ (d : Driver) where
  pub owns-keep :
      (k : Key) (p : Row → Bool) (rows : List Row)
      → owns d k rows ≡ false
      → owns d k (keep p rows) ≡ false
  unfolding owns
  owns-keep k p [] h = h
  owns-keep k p (r ∷ rows) h = elim (Bool-cases (p r)) [
    | inl e ↦ rw e (ground (arith, h, owns-keep k p rows))
    | inr e ↦ rw e (owns-keep k p rows (ground (arith, h)))
  ]

  pub key_of-find_row :
      (k : Key) (u : String) (rows : List Row)
      → owns d k rows ≡ false
      → key_of d (find_row u rows) k ≡ false
  unfolding owns find_row
  key_of-find_row k u [] h = refl
  key_of-find_row k u (r ∷ rows) h = elim (Bool-cases (r.user == u)) [
    | inl e ↦ rw e (ground (arith, h))
    | inr e ↦ rw e (key_of-find_row k u rows (ground (arith, h)))
  ]

  module _ (k : Key) where
    -- The entry is on the server, no row stands for it, and the map has none either.
    pub record Manual (w : Sync) : Type 0 where
      pub there : w.actual k ≡ true
      pub no_row : owns d k w.rows ≡ false
      pub not_owned : owns d k w.owned ≡ false

    owns-set_for_identity :
        (u name : String) (rows : List Row)
        → key_eq (identity_key d name) k ≡ false
        → owns d k rows ≡ false
        → owns d k (set_for_identity d u name rows) ≡ false
    unfolding set_for_identity without_user owns
    owns-set_for_identity u name rows n h = rw n (owns-keep k _ _ (owns-keep k _ rows h))

    -- An identity that a run adds is another one: this one is there.
    pub added_other :
        (name : String) (w : Sync)
        → Manual w
        → (key_eq (identity_key d name) k && not (w.actual (identity_key d name))) ≡ false
    added_other name w m = elim (Bool-cases (key_eq (identity_key d name) k)) [
      | inl e ↦
          let same = ap w.actual (codes_eq→eq (identity_key d name) k e) in
          rw (same, m.there) (ground arith)
      | inr e ↦ rw e refl
    ]

    module _ (sv : Services) where
      send_add-Manual : (name : String) (w : Sync) → Manual w → Always Manual (send_add sv d name w)
      unfolding send_add
      send_add-Manual name w m = elim (Bool-cases (sv.sends (Command.add name))) [
        | inl e ↦
            let t = m.there in
            rw e (record { there = ground (arith, t); no_row = m.no_row; not_owned = m.not_owned })
        | inr e ↦ rw e m
      ]

      pub add_missing-Manual :
          (name : String) (w : Sync) → Manual w → Always Manual (add_missing sv d name w)
      unfolding add_missing
      add_missing-Manual name w m = elim (Bool-cases (w.actual (identity_key d name))) [
        | inl e ↦ rw e m
        | inr e ↦ rw e (send_add-Manual name w m)
      ]

      send_remove-Manual :
          (name : String) (w : Sync)
          → key_eq (identity_key d name) k ≡ false
          → Manual w
          → Always Manual (send_remove sv d name w)
      unfolding send_remove
      send_remove-Manual name w n m = elim (Bool-cases (sv.sends (Command.remove name))) [
        | inl e ↦
            let t = m.there in
            rw e
              (record { there = ground (arith, t, n); no_row = m.no_row; not_owned = m.not_owned })
        | inr e ↦ rw e m
      ]

      pub remove_present-Manual :
          (name : String) (w : Sync)
          → key_eq (identity_key d name) k ≡ false
          → Manual w
          → Always Manual (remove_present sv d name w)
      unfolding remove_present
      remove_present-Manual name w n m = elim (Bool-cases (w.actual (identity_key d name))) [
        | inl e ↦ rw e (send_remove-Manual name w n m)
        | inr e ↦ rw e m
      ]

      pub store_set-Manual :
          (u name : String) (w : Sync)
          → key_eq (identity_key d name) k ≡ false
          → Manual w
          → Always Manual (store_set sv d u name w)
      unfolding store_set
      store_set-Manual u name w n m = elim (Bool-cases (sv.stores (Write.set u name))) [
        | inl e ↦ rw e (record {
          there = m.there;
          no_row = owns-set_for_identity u name w.rows n m.no_row;
          not_owned = m.not_owned;
        })
        | inr e ↦ rw e m
      ]

      pub store_delete-Manual :
          (u : String) (w : Sync) → Manual w → Always Manual (store_delete sv d u w)
      unfolding store_delete without_user
      store_delete-Manual u w m = elim (Bool-cases (sv.stores (Write.delete u))) [
        | inl e ↦ rw e (record {
          there = m.there;
          no_row = owns-keep k _ w.rows m.no_row;
          not_owned = m.not_owned;
        })
        | inr e ↦ rw e m
      ]
