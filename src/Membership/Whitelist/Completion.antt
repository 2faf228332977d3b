-- ===== src/Membership/Whitelist/Completion.antt =====
-- Runs whose requests all succeed.
use hogs.Prelude.{
  String, Bool, true, false, not, ◌&&◌, ◌||◌, Option, none, some, List, [], ◌∷◌, ◌==◌,
  if◌then◌else◌, ◌≡◌, refl,
}
use hogs.Membership.Identity.{
  Key, Driver, Desired, Row, identity_key, identities_equal, is_desired, desired_owner, find_row,
  without_user, owns,
}
use hogs.Membership.Whitelist.{
  Services, Command, Write, Sync, Part, goes_on, ◌>>=◌, send_add, send_remove, store_set,
  store_delete, add_missing, remove_present, drop_former, settle, admit, admit_all, hand_over,
  revoke, revoke_all, reconcile,
}
use hogs.Membership.Whitelist.Entries.{IsUnique, reconcile-entries}

GoesOn : Part → Type 0
GoesOn m = m.1 ≡ true

GoesOn-bind :
    (m : Part) (f : Sync → Part) → GoesOn m → ((w : Sync) → GoesOn (f w)) → GoesOn (m >>= f)
unfolding GoesOn
GoesOn-bind (w, true) f h k = k w
GoesOn-bind (w, false) f h k = h

GoesOn-if : (b : Bool) (m n : Part) → GoesOn m → GoesOn n → GoesOn (if b then m else n)
GoesOn-if true m n h k = h
GoesOn-if false m n h k = k

module _ (sv : Services) (d : Driver) (desired : Desired)
    (answers : (c : Command) → sv.sends c ≡ true) (writes : (w : Write) → sv.stores w ≡ true) where
  send_add-GoesOn : (name : String) (w : Sync) → GoesOn (send_add sv d name w)
  unfolding GoesOn send_add
  send_add-GoesOn name w = rw (answers (Command.add name)) refl

  send_remove-GoesOn : (name : String) (w : Sync) → GoesOn (send_remove sv d name w)
  unfolding GoesOn send_remove
  send_remove-GoesOn name w = rw (answers (Command.remove name)) refl

  store_set-GoesOn : (u name : String) (w : Sync) → GoesOn (store_set sv d u name w)
  unfolding GoesOn store_set
  store_set-GoesOn u name w = rw (writes (Write.set u name)) refl

  store_delete-GoesOn : (u : String) (w : Sync) → GoesOn (store_delete sv d u w)
  unfolding GoesOn store_delete
  store_delete-GoesOn u w = rw (writes (Write.delete u)) refl

  remove_present-GoesOn : (name : String) (w : Sync) → GoesOn (remove_present sv d name w)
  unfolding GoesOn remove_present
  remove_present-GoesOn name w =
      GoesOn-if (w.actual (identity_key d name)) (send_remove sv d name w) (goes_on w)
        (send_remove-GoesOn name w) refl

  add_missing-GoesOn : (name : String) (w : Sync) → GoesOn (add_missing sv d name w)
  unfolding GoesOn add_missing
  add_missing-GoesOn name w =
      GoesOn-if (w.actual (identity_key d name)) (goes_on w) (send_add sv d name w) refl
        (send_add-GoesOn name w)

  drop_former-GoesOn :
      (former : Option Row) (name : String) (w : Sync)
      → GoesOn (drop_former sv d desired former name w)
  unfolding GoesOn drop_former
  drop_former-GoesOn none name w = refl
  drop_former-GoesOn (some r) name w =
      GoesOn-if
        (not (identities_equal d r.name name) && not (is_desired d desired (identity_key d r.name)))
        (remove_present sv d r.name w) (goes_on w) (remove_present-GoesOn r.name w) refl

  settle-GoesOn :
      (former : Option Row) (was_there : Bool) (u name : String) (w : Sync)
      → GoesOn (settle sv d desired former was_there u name w)
  unfolding GoesOn settle
  settle-GoesOn none b u name w =
      GoesOn-if b (goes_on w) (store_set sv d u name w) refl (store_set-GoesOn u name w)
  settle-GoesOn (some r) b u name w =
      GoesOn-if (identities_equal d r.name name || not b) (store_set sv d u name w)
        (store_delete sv d u w) (store_set-GoesOn u name w) (store_delete-GoesOn u w)

  admit-GoesOn : (u name : String) (w : Sync) → GoesOn (admit sv d desired (u, name) w)
  unfolding GoesOn admit
  admit-GoesOn u name w =
      let former = find_row u w.owned in
      let added = add_missing sv d name w in
      let dropped = drop_former sv d desired former name in
      let settled = settle sv d desired former (w.actual (identity_key d name)) u name in
      GoesOn-bind (added >>= dropped >>= settled)
        (λ v. goes_on (record v { owned = without_user u v.owned }))
        (GoesOn-bind (added >>= dropped) settled
          (GoesOn-bind added dropped (add_missing-GoesOn name w) (drop_former-GoesOn former name))
          (settle-GoesOn former _ u name))
        (λ v. refl)

  admit_all-GoesOn : (rest : Desired) (w : Sync) → GoesOn (admit_all sv d desired rest w)
  unfolding GoesOn admit_all
  admit_all-GoesOn [] w = refl
  admit_all-GoesOn ((u, name) ∷ rest) w =
      GoesOn-bind (admit sv d desired (u, name) w) (admit_all sv d desired rest)
        (admit-GoesOn u name w) (admit_all-GoesOn rest)

  hand_over-GoesOn :
      (to : Option String) (r : Row) (w : Sync) → GoesOn (hand_over sv d desired to r w)
  unfolding GoesOn hand_over
  hand_over-GoesOn none r w = refl
  hand_over-GoesOn (some u) r w =
      GoesOn-if (u == r.user) (goes_on w) (store_set sv d u r.name w) refl
        (store_set-GoesOn u r.name w)

  revoke-GoesOn : (r : Row) (w : Sync) → GoesOn (revoke sv d desired r w)
  unfolding revoke
  revoke-GoesOn r w =
      let to = desired_owner d desired (identity_key d r.name) in
      let wanted = is_desired d desired (identity_key d r.name) in
      GoesOn-bind (if wanted then hand_over sv d desired to r w else remove_present sv d r.name w)
        (store_delete sv d r.user)
        (GoesOn-if wanted _ _ (hand_over-GoesOn to r w) (remove_present-GoesOn r.name w))
        (store_delete-GoesOn r.user)

  revoke_all-GoesOn : (stale : List Row) (w : Sync) → GoesOn (revoke_all sv d desired stale w)
  unfolding GoesOn revoke_all
  revoke_all-GoesOn [] w = refl
  revoke_all-GoesOn (r ∷ stale) w =
      GoesOn-bind (revoke sv d desired r w) (revoke_all sv d desired stale) (revoke-GoesOn r w)
        (revoke_all-GoesOn stale)

  reconcile-GoesOn :
      (actual : Key → Bool) (rows : List Row) → GoesOn (reconcile sv d desired actual rows)
  unfolding reconcile
  reconcile-GoesOn actual rows =
      GoesOn-bind
        (admit_all sv d desired desired
          (record { actual = actual; rows = rows; owned = rows; added = 0; removed = 0 }))
        (λ w. revoke_all sv d desired w.owned w) (admit_all-GoesOn desired _)
        (λ w. revoke_all-GoesOn w.owned w)

  -- Where every request succeeds the run completes, and the list on the server then holds what is
  -- wanted and the entries that were there and HOGS did not own. Usernames are unique in the table.
  pub reconcile-completes :
      (actual : Key → Bool) (rows : List Row)
      → IsUnique rows
      → ((reconcile sv d desired actual rows).1 ≡ true)
        × ((k : Key)
            → (reconcile sv d desired actual rows).0.actual k
              ≡ (is_desired d desired k || (actual k && not (owns d k rows))))
  unfolding GoesOn
  reconcile-completes actual rows u =
      let done = reconcile-GoesOn actual rows in
      (done, λ k. reconcile-entries d desired sv actual rows k u done)
