-- ===== src/Membership/Whitelist.antt =====
-- api/whitelist_reconciler.go: `ReconcileServer`, from the two lists on. What the game server and the
-- store answer to each request is given; a request that fails changes nothing and ends the run, with
-- what was done before it. The order of a Go map is that of the list that stands for it.
pub mod Rules
pub mod Entries
pub mod Ownership
pub mod Manual
pub mod Completion
mod Tests
use hogs.Prelude.{
  ℕ, ◌+◌, String, Bool, true, false, not, ◌&&◌, ◌||◌, Option, none, some, List, [], ◌∷◌, ◌==◌,
  if◌then◌else◌,
}
use hogs.Prelude.Text.{codes_eq}
use hogs.Membership.Identity.{
  Key, Driver, Desired, Row, identity_key, identities_equal, is_desired, desired_owner, find_row,
  without_user, set_for_identity,
}

pub data Command : Type 0 where
  add remove : String → Command

pub data Write : Type 0 where
  set : String → String → Write
  delete : String → Write

pub record Services : Type 0 where
  pub sends : Command → Bool
  pub stores : Write → Bool

-- The run's view of the list on the game server, by the keys that are in it, which its commands keep
-- equal to the list; the rows in the store; the map `owned`; and the counters.
pub record Sync : Type 0 where
  pub actual : Key → Bool
  pub rows : List Row
  pub owned : List Row
  pub added : ℕ
  pub removed : ℕ

-- A part of the run: what it leaves, and whether the run goes on.
abbrev pub Part : Type 0
Part = Sync × Bool

infixl 5 ◌>>=◌
abbrev pub ◌>>=◌ : Part → (Sync → Part) → Part
(w, true) >>= f = f w
(w, false) >>= f = (w, false)

abbrev pub goes_on : Sync → Part
goes_on w = (w, true)

module _ (sv : Services) (d : Driver) where
  unfoldable pub send_add : String → Sync → Part
  send_add name w =
      if sv.sends (Command.add name)
      then goes_on (record w {
        actual = λ k. codes_eq (identity_key d name) k || w.actual k;
        added = w.added + 1;
      })
      else (w, false)

  unfoldable pub send_remove : String → Sync → Part
  send_remove name w =
      if sv.sends (Command.remove name)
      then goes_on (record w {
        actual = λ k. not (codes_eq (identity_key d name) k) && w.actual k;
        removed = w.removed + 1;
      })
      else (w, false)

  unfoldable pub store_set : String → String → Sync → Part
  unfolding set_for_identity
  store_set user name w =
      if sv.stores (Write.set user name)
      then goes_on (record w { rows = set_for_identity d user name w.rows })
      else (w, false)

  unfoldable pub store_delete : String → Sync → Part
  unfolding without_user
  store_delete user w =
      if sv.stores (Write.delete user)
      then goes_on (record w { rows = without_user user w.rows })
      else (w, false)

  unfoldable pub add_missing : String → Sync → Part
  unfolding send_add
  add_missing name w = if w.actual (identity_key d name) then goes_on w else send_add name w

  unfoldable pub remove_present : String → Sync → Part
  unfolding send_remove
  remove_present name w = if w.actual (identity_key d name) then send_remove name w else goes_on w

  module _ (desired : Desired) where
    -- The former identity of a user who wants another one now.
    unfoldable pub drop_former : Option Row → String → Sync → Part
    unfolding remove_present identities_equal is_desired
    drop_former none name w = goes_on w
    drop_former (some r) name w =
        if not (identities_equal d r.name name)
          && not (is_desired d desired (identity_key d r.name))
        then remove_present r.name w
        else goes_on w

    -- Whose entry the identity is from now on.
    unfoldable pub settle : Option Row → Bool → String → String → Sync → Part
    unfolding store_set store_delete identities_equal
    settle none was_there user name w = if was_there then goes_on w else store_set user name w
    settle (some r) was_there user name w =
        if identities_equal d r.name name || not was_there
        then store_set user name w
        else store_delete user w

    -- One round of the loop over `desired`.
    unfoldable pub admit : String × String → Sync → Part
    unfolding add_missing drop_former settle without_user
    admit (user, name) w =
        let former = find_row user w.owned in
        let was_there = w.actual (identity_key d name) in
        (add_missing name w
          >>= drop_former former name
          >>= settle former was_there user name
          >>= λ u. goes_on (record u { owned = without_user user u.owned }))

    unfoldable pub admit_all : Desired → Sync → Part
    unfolding admit
    admit_all [] w = goes_on w
    admit_all (want ∷ rest) w = admit want w >>= admit_all rest

    hand_over : Option String → Row → Sync → Part
    hand_over none stale w = goes_on w
    hand_over (some recipient) stale w =
        if recipient == stale.user then goes_on w else store_set recipient stale.name w

    -- One round of the loop over the rows of users who are not wanted.
    unfoldable pub revoke : Row → Sync → Part
    unfolding remove_present hand_over store_delete
    revoke stale w =
        let k = identity_key d stale.name in
        ((if is_desired d desired k
            then hand_over (desired_owner d desired k) stale w
            else remove_present stale.name w)
          >>= store_delete stale.user)

    unfoldable pub revoke_all : List Row → Sync → Part
    unfolding revoke
    revoke_all [] w = goes_on w
    revoke_all (stale ∷ rest) w = revoke stale w >>= revoke_all rest

    -- The run from the entries on the server and the rows of the store on.
    unfoldable pub reconcile : (Key → Bool) → List Row → Part
    unfolding admit_all revoke_all
    reconcile actual rows =
        (admit_all desired
            (record { actual = actual; rows = rows; owned = rows; added = 0; removed = 0 })
          >>= λ w. revoke_all w.owned w)
