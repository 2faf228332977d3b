-- ===== src/Keys.antt =====
-- auth/apikey.go, with the table api_keys of database/database.go: the keys of machine clients, and
-- the roles that a route asks of them. The hash of a key, the text of a time, and whether the
-- database answers are given.
pub mod Rows
pub mod Passed
pub mod Rotation
mod Tests
use hogs.Prelude.{
  ℕ, zero, suc, ◌+◌, ◌<◌, String, Bool, true, false, not, ◌&&◌, ◌||◌, Option, none, some, List, [],
  ◌∷◌, ◌==◌, ◌++◌, any, keep, map, eqb, leb, ltb, length, if◌then◌else◌,
}
use hogs.Prelude.Text.{codes, codes_eq}
use hogs.Prelude.Fallible.{Result, ok, err}

-- A text by its bytes.
abbrev pub Bytes : Type 0
Bytes = List ℕ

-- `APIKey`, a row of the table.
pub record Key : Type 0 where
  pub id : ℕ
  pub name : String
  pub key_hash : Bytes
  pub key_prefix : Bytes
  pub role : String
  pub created_at : String
  pub last_used : Option String
  pub expires_at : Option String

-- The table, and its AUTOINCREMENT.
pub record Table : Type 0 where
  pub rows : List Key
  pub next_id : ℕ

unfoldable pub get_by_hash : Bytes → List Key → Option Key
get_by_hash h [] = none
get_by_hash h (k ∷ rows) =
    let later = get_by_hash h rows in if codes_eq k.key_hash h then some k else later

inserted : Key → Table → Option Key → Option Table
inserted key t (some k) = none
inserted key t none =
    some (record { rows = t.rows ++ record key { id = t.next_id } ∷ []; next_id = t.next_id + 1 })

-- INSERT: `key_hash` is UNIQUE.
unfoldable pub create : Key → Table → Option Table
unfolding inserted get_by_hash
create key t = inserted key t (get_by_hash key.key_hash t.rows)

unfoldable pub without_name : String → List Key → List Key
without_name name rows = keep (λ k. not (k.name == name)) rows

-- `ReplaceAPIKeyByName`, in a transaction.
unfoldable pub replace_by_name : Key → Table → Option Table
unfolding create without_name
replace_by_name key t = create key (record t { rows = without_name key.name t.rows })

unfoldable pub delete : ℕ → Table → Table
delete id t = record t { rows = keep (λ k. not (eqb k.id id)) t.rows }

touch : ℕ → String → Key → Key
touch id now k = if eqb k.id id then record k { last_used = some now } else k

-- `UpdateAPIKeyLastUsed`
unfoldable pub update_last_used : ℕ → String → Table → Table
unfolding touch
update_last_used id now t = record t { rows = map (touch id now) t.rows }

-- strings.TrimPrefix, where the prefix is there.
unfoldable pub strip : Bytes → Bytes → Option Bytes
strip [] text = some text
strip (p ∷ ps) [] = none
strip (p ∷ ps) (c ∷ text) = let rest = strip ps text in if eqb p c then rest else none

abbrev pub api_key_prefix : Bytes
api_key_prefix = codes "hogs_"

abbrev pub bearer : Bytes
bearer = codes "Bearer "

-- The clock, in a time's order and as the database stores it, and the time that a text gives.
pub record Clock : Type 0 where
  pub now : ℕ
  pub text : String
  pub parse : String → Option ℕ

unfoldable pub is_expired : Clock → Option String → Bool
is_expired c none = false
is_expired c (some text) =
    if text == ""
    then false
    else elim (c.parse text) [ none ↦ false | some expires ↦ ltb expires c.now ]

pub data Answer : Type 0 where
  internal_error unauthorized forbidden : Answer
  passed : Key → Answer

abbrev pub take : ℕ → Bytes → Bytes
take zero xs = []
take (suc n) [] = []
take (suc n) (x ∷ xs) = x ∷ take n xs

module _ (hash : Bytes → Bytes) (c : Clock) where
  -- The token of a header.
  unfoldable pub token_of : Bytes → Option Bytes
  unfolding strip
  token_of header = elim (strip bearer header) [
    | none ↦ none
    | some token ↦ elim (strip api_key_prefix token) [ none ↦ none | some rest ↦ some token ]
  ]

  unfoldable pub accept : Option Key → Option Key
  unfolding is_expired
  accept none = none
  accept (some k) = if is_expired c k.expires_at then none else some k

  -- `Authenticate`; `is_up` tells whether the database answers.
  unfoldable pub authenticate : Bool → Bytes → Table → Result (Unit {0}) (Option Key) × Table
  unfolding token_of accept get_by_hash update_last_used
  authenticate is_up header t = elim (token_of header) [
    | none ↦ (ok none, t)
    | some token ↦
        if not is_up then (err tt, t) else elim (accept (get_by_hash (hash token) t.rows)) [
          | none ↦ (ok none, t)
          | some k ↦ (ok (some k), update_last_used k.id c.text t)
        ]
  ]

  -- `RequireAPIKeyRole`, for the key in the request's context.
  unfoldable pub require_role : List String → Option Key → Answer
  require_role roles none = Answer.unauthorized
  require_role roles (some k) =
      if any (λ role. role == k.role) roles then Answer.passed k else Answer.forbidden

  served : List String → Result (Unit {0}) (Option Key) × Table → Answer × Table
  unfolding require_role
  served roles (ok key, t) = (require_role roles key, t)
  served roles (err e, t) = (Answer.internal_error, t)

  -- `APIKeyMiddleware` before a route that asks for roles.
  unfoldable pub serve : List String → Bool → Bytes → Table → Answer × Table
  unfolding authenticate served
  serve roles is_up header t = served roles (authenticate is_up header t)

  unfoldable pub bootstrap_key : String → Bytes → Key
  bootstrap_key name plain = record {
    id = 0;
    name = name;
    key_hash = hash plain;
    key_prefix = take 8 plain;
    role = "admin";
    created_at = c.text;
    last_used = none;
    expires_at = none;
  }

  is_installed : String → Option Key → Bool
  is_installed name none = false
  is_installed name (some k) = k.name == name && k.role == "admin"

  is_credential : String → Bytes → Bool
  unfolding strip
  is_credential name plain =
      not (name == "")
      && leb 8 (length plain)
      && (elim (strip api_key_prefix plain) [ none ↦ false | some rest ↦ true ])

  rotated : Option Table → Table → Result (Unit {0}) Bool × Table
  rotated none t = (err tt, t)
  rotated (some new) t = (ok true, new)

  -- `BootstrapAdminAPIKey`: whether it changed the table, or that it failed.
  unfoldable pub bootstrap : Bool → String → Bytes → Table → Result (Unit {0}) Bool × Table
  unfolding is_installed bootstrap_key replace_by_name is_credential rotated
  bootstrap is_up name [] t = (ok false, t)
  bootstrap is_up name (b ∷ bytes) t =
      let plain = b ∷ bytes in
      if not (is_credential name plain) || not is_up
      then (err tt, t)
      else if is_installed name (get_by_hash (hash plain) t.rows)
      then (ok false, t)
      else rotated (replace_by_name (bootstrap_key name plain) t) t
