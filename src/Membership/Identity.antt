-- ===== src/Membership/Identity.antt =====
-- The identities of users in a game: what the reconcilers ask of gametypes/driver.go and the store,
-- and the users that they want on a server.
pub mod Eligibility
pub mod Tests
use hogs.Prelude.{
  ℕ, ◌+◌, String, Bool, true, false, not, ◌&&◌, ◌||◌, Option, none, some, List, [], ◌∷◌, ◌==◌, any,
  keep, if◌then◌else◌, ◌≡◌,
}
use hogs.Prelude.Text.{codes, to_lower, codes_eq}
use hogs.Prelude.Fallible.{Result, ok, err}
use hogs.Access.{Grant, Decision, evaluate_server_access}

-- The key of an identity: its text, in lower case where the game does not tell case apart.
abbrev pub Key : Type 0
Key = List ℕ

-- What a game's driver gives here. `resolve` is the driver's conversion of a provider's record to
-- the identity in the game, `is_valid` its check of that identity.
pub record Driver : Type 0 where
  pub case_sensitive : Bool
  pub identity_provider : String
  pub resolve : String → String → String
  pub is_valid : String → Bool

-- `identityKey`
unfoldable pub identity_key : Driver → String → Key
identity_key d name = if d.case_sensitive then codes name else to_lower name

-- `IdentitiesEqual`
unfoldable pub identities_equal : Driver → String → String → Bool
unfolding identity_key
identities_equal d a b = codes_eq (identity_key d a) (identity_key d b)

-- `AuthentikIdentity`
unfoldable pub authentik_identity : Driver → String → String → Option String
authentik_identity d name subject =
    if d.identity_provider == "" || not (d.is_valid (d.resolve name subject))
    then none
    else some (d.resolve name subject)

pub record GameIdentity : Type 0 where
  pub username : String
  pub external_id : String
  pub source : String

-- A user with what the store answers about him: the names of his groups, and his identity.
pub record User : Type 0 where
  pub username : String
  pub role : String
  pub is_active : Bool
  pub groups : Result String (List String)
  pub identity : Result String (Option GameIdentity)

-- What becomes of a user.
pub data Standing : Type 0 where
  absent missing unverified invalid : Standing
  wanted : String → Standing

identified : Driver → Option GameIdentity → Standing
identified d none = Standing.missing
identified d (some i) =
    if not (i.source == "scim")
    then Standing.unverified
    else elim (authentik_identity d i.username i.external_id) [
      | none ↦ Standing.invalid
      | some name ↦ Standing.wanted name
    ]

looked_up : Driver → Result String (Option GameIdentity) → Result String Standing
unfolding identified
looked_up d (ok identity) = ok (identified d identity)
looked_up d (err e) = err e

admitted : Driver → User → Result String Decision → Result String Standing
unfolding looked_up
admitted d user (err e) = err e
admitted d user (ok decision) =
    if not (user.role == "admin") && not (user.role == "system") && not decision.allowed
    then ok Standing.absent
    else looked_up d user.identity

-- One round of the loop over the users, for the capability that the list stands for.
unfoldable pub standing_of :
    Driver → Result String (List Grant) → String → User → Result String Standing
unfolding admitted
standing_of d grants capability user =
    if not user.is_active then ok Standing.absent else elim user.groups [
      | err e ↦ err e
      | ok groups ↦ admitted d user (evaluate_server_access grants user.username groups capability)
    ]

-- The map `desired`, by username. Usernames are unique in the table of users, so that no entry is
-- written twice.
abbrev pub Desired : Type 0
Desired = List (String × String)

with_standing : String → Standing → Result String Desired → Result String Desired
with_standing username (Standing.wanted name) (ok rest) = ok ((username, name) ∷ rest)
with_standing username standing rest = rest

consed : User → Result String Standing → Result String Desired → Result String Desired
unfolding with_standing
consed user (err e) rest = err e
consed user (ok standing) rest = with_standing user.username standing rest

-- The loop over the users.
unfoldable pub gather :
    Driver → Result String (List Grant) → String → List User → Result String Desired
unfolding standing_of consed
gather d grants capability [] = ok []
gather d grants capability (user ∷ users) =
    consed user (standing_of d grants capability user) (gather d grants capability users)

-- The names that are wanted, and the first user who wants one.
unfoldable pub is_desired : Driver → Desired → Key → Bool
is_desired d desired k = any (λ want. codes_eq (identity_key d want.1) k) desired

unfoldable pub desired_owner : Driver → Desired → Key → Option String
desired_owner d [] k = none
desired_owner d ((username, name) ∷ rest) k =
    let later = desired_owner d rest k in
    if codes_eq (identity_key d name) k && not (username == "") then some username else later

-- A row of `user_whitelists` or `user_admins` of the server: the entry that HOGS made for a user.
pub record Row : Type 0 where
  pub user : String
  pub name : String

unfoldable pub find_row : String → List Row → Option Row
find_row user [] = none
find_row user (r ∷ rows) =
    let later = find_row user rows in if r.user == user then some r else later

-- delete(owned, username), and `DELETE … WHERE user_username = ?`
unfoldable pub without_user : String → List Row → List Row
without_user user rows = keep (λ r. not (r.user == user)) rows

-- Does some row stand for an identity?
unfoldable pub owns : Driver → Key → List Row → Bool
owns d k rows = any (λ r. codes_eq (identity_key d r.name) k) rows

-- `SetUserWhitelistForIdentity` and `SetUserAdminForIdentity`: other users' rows of the identity go.
unfoldable pub set_for_identity : Driver → String → String → List Row → List Row
unfolding without_user
set_for_identity d user name rows =
    record { user = user; name = name }
    ∷ without_user user (
        keep
          (λ r.
            not
              (identities_equal d r.name name && not (codes_eq (to_lower r.user) (to_lower user))))
          rows)
