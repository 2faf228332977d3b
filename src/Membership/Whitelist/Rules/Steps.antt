-- ===== src/Membership/Whitelist/Rules/Steps.antt =====
-- What each request and each write of the reconciler leaves.
use hogs.Prelude.{String, not, ◌&&◌, ◌||◌, refl, Bool-cases, inl, inr}
use hogs.Membership.Identity.{Driver, identity_key, without_user, set_for_identity}
use hogs.Membership.Whitelist.{
  Services, Command, Write, Sync, send_add, send_remove, store_set, store_delete, add_missing,
  remove_present,
}
use hogs.Membership.Whitelist.Rules.{After, key_eq, with_present, without_absent, Becomes}

module _ (sv : Services) (d : Driver) where
  send_add_lem :
      (name : String) (w : Sync)
      → After
          (Becomes (λ k. key_eq (identity_key d name) k || w.actual k) w.rows w.owned)
          (send_add sv d name w)
  unfolding send_add
  send_add_lem name w = elim (Bool-cases (sv.sends (Command.add name))) [
    | inl e ↦ rw e (record { entries = λ k. refl; rows_are = refl; owned_are = refl })
    | inr e ↦ rw e tt
  ]

  send_remove_lem :
      (name : String) (w : Sync)
      → After
          (Becomes (λ k. not (key_eq (identity_key d name) k) && w.actual k) w.rows w.owned)
          (send_remove sv d name w)
  unfolding send_remove
  send_remove_lem name w = elim (Bool-cases (sv.sends (Command.remove name))) [
    | inl e ↦ rw e (record { entries = λ k. refl; rows_are = refl; owned_are = refl })
    | inr e ↦ rw e tt
  ]

  pub add_missing_lem :
      (name : String) (w : Sync)
      → After
          (Becomes (λ k. key_eq (identity_key d name) k || w.actual k) w.rows w.owned)
          (add_missing sv d name w)
  unfolding add_missing
  add_missing_lem name w = elim (Bool-cases (w.actual (identity_key d name))) [
    | inl e ↦ rw e (record {
      entries = λ k. with_present (identity_key d name) k w.actual e;
      rows_are = refl;
      owned_are = refl;
    })
    | inr e ↦ rw e (send_add_lem name w)
  ]

  pub remove_present_lem :
      (name : String) (w : Sync)
      → After
          (Becomes (λ k. not (key_eq (identity_key d name) k) && w.actual k) w.rows w.owned)
          (remove_present sv d name w)
  unfolding remove_present
  remove_present_lem name w = elim (Bool-cases (w.actual (identity_key d name))) [
    | inl e ↦ rw e (send_remove_lem name w)
    | inr e ↦ rw e (record {
      entries = λ k. without_absent (identity_key d name) k w.actual e;
      rows_are = refl;
      owned_are = refl;
    })
  ]

  pub store_set_lem :
      (user name : String) (w : Sync)
      → After
          (Becomes w.actual (set_for_identity d user name w.rows) w.owned)
          (store_set sv d user name w)
  unfolding store_set
  store_set_lem user name w = elim (Bool-cases (sv.stores (Write.set user name))) [
    | inl e ↦ rw e (record { entries = λ k. refl; rows_are = refl; owned_are = refl })
    | inr e ↦ rw e tt
  ]

  pub store_delete_lem :
      (user : String) (w : Sync)
      → After (Becomes w.actual (without_user user w.rows) w.owned) (store_delete sv d user w)
  unfolding store_delete
  store_delete_lem user w = elim (Bool-cases (sv.stores (Write.delete user))) [
    | inl e ↦ rw e (record { entries = λ k. refl; rows_are = refl; owned_are = refl })
    | inr e ↦ rw e tt
  ]
