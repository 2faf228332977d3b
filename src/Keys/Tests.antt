-- ===== src/Keys/Tests.antt =====
-- Requests with the key of a deployment, and with the one before it.
use hogs.Prelude.{
  if◌then◌else◌, String, true, false, Option, none, some, any, [], ◌∷◌, ◌==◌, ◌++◌, ◌≡◌, refl,
}
use hogs.Prelude.Text.{codes}
use hogs.Keys.{
  Bytes, Key, Table, Clock, Answer, api_key_prefix, bearer, is_expired, get_by_hash, serve,
  bootstrap_key, bootstrap,
}
use hogs.Keys.Passed.{serve_sound}
use hogs.Keys.Rotation.{Replaced, bootstrap-serve}

abbrev hash : Bytes → Bytes
hash text = 7 ∷ text

abbrev clock : Clock
clock = record { now = 100; text = "100"; parse = λ text. if text == "50" then some 50 else none }

abbrev key : String → String → Option String → Key
key name plain expires = record {
  id = 1;
  name = name;
  key_hash = hash (codes plain);
  key_prefix = codes "hogs_abc";
  role = "user";
  created_at = "1";
  last_used = none;
  expires_at = expires;
}

abbrev table : Table
table = record {
  rows = key "gandalf" "hogs_abc1" none ∷ key "bot" "hogs_abc2" (some "50") ∷ [];
  next_id = 3;
}

-- A key of another role, an expired one, none, and a database that does not answer.
refused :
    ((serve hash clock ("admin" ∷ []) true (codes "Bearer hogs_abc1") table).0 ≡ Answer.forbidden)
    × ((serve hash clock ("user" ∷ []) true (codes "Bearer hogs_abc2") table).0
        ≡ Answer.unauthorized)
    × ((serve hash clock ("user" ∷ []) true (codes "Basic x") table).0 ≡ Answer.unauthorized)
    × ((serve hash clock ("user" ∷ []) false (codes "Bearer hogs_abc1") table).0
        ≡ Answer.internal_error)
unfolding serve is_expired
refused = (refl, refl, refl, refl)

serve_sound_example :
    (rest : Bytes) × (codes "Bearer hogs_abc1" ≡ bearer ++ api_key_prefix ++ rest)
    × (get_by_hash (hash (api_key_prefix ++ rest)) table.rows
        ≡ some (key "gandalf" "hogs_abc1" none))
    × (is_expired clock none ≡ false)
    × (any (λ role. role == "user") ("user" ∷ []) ≡ true)
unfolding serve
serve_sound_example =
    serve_sound hash clock ("user" ∷ []) true (codes "Bearer hogs_abc1") table
      (key "gandalf" "hogs_abc1" none) refl

bootstrap-serve_example :
    ((serve hash clock
        ("admin" ∷ [])
        true
        (bearer ++ codes "hogs_new9")
        (bootstrap hash clock true "gandalf" (codes "hogs_new9") table).1).0
      ≡ Answer.passed (record (bootstrap_key hash clock "gandalf" (codes "hogs_new9")) { id = 3 }))
    × Replaced
        (bootstrap_key hash clock "gandalf" (codes "hogs_new9"))
        table
        (bootstrap hash clock true "gandalf" (codes "hogs_new9") table).1
unfolding bootstrap
bootstrap-serve_example = bootstrap-serve hash clock true "gandalf" (codes "hogs_new9") table refl
