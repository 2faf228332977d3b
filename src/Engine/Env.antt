-- ===== src/Engine/Env.antt =====
-- The environment in which the engine evaluates an expression: `buildEnv` and the helpers that it
-- hands to expressions.
use hogs.Prelude.{
  ℕ, ◌+◌, String, Bool, false, List, [], ◌∷◌, Option, none, some, map, eqb, any, keep, ◌==◌,
  if◌then◌else◌,
}
use hogs.Prelude.Fallible.{Result, ok, ◌>>=◌}
use hogs.StatusCache.{Cache, ServerStatus}
use hogs.StatusCache

-- The columns of a server that the engine reads.
pub record Server : Type 0 where
  pub id : ℕ
  pub name : String
  pub game_type : String
  pub management_id : String
  pub state : String

pub record ServerEnv : Type 0 where
  pub id : ℕ
  pub name : String
  pub game_type : String
  pub tags : List String
  pub node : String
  pub running : Bool
  pub players : ℕ
  pub players_known : Bool

pub record UserEnv : Type 0 where
  pub username : String
  pub role : String
  pub groups : List String
  pub client_ip : String
  pub country_code : String

-- `weekday` counts from Sunday, 0.
pub record TimeEnv : Type 0 where
  pub now : ℕ
  pub hour : ℕ
  pub weekday : ℕ

-- The values of the environment; its functions are the ones below.
pub record Env : Type 0 where
  pub server : ServerEnv
  pub servers : List ServerEnv
  pub user : Option UserEnv
  pub time : TimeEnv
  pub action : String

-- What the store answers: a failed or empty read of the tags or of a link is ignored, so both are
-- `none` here.
pub record Rows : Type 0 where
  pub servers : Result String (List Server)
  pub tags : ℕ → Option (List String)
  pub node : ℕ → Option String

abbrev pub or_default {ℓ} : {A : Type ℓ} → Option A → A → A
or_default none d = d
or_default (some a) d = a

observed : Option ServerStatus → ServerEnv → ServerEnv
observed none env = env
observed (some status) env = record env {
  running = status.online;
  players = status.players;
  players_known = status.players_known;
}

-- The server as it is known without a look at the cache.
bare : Rows → Server → ServerEnv
bare rows server = record {
  id = server.id;
  name = server.name;
  game_type = server.game_type;
  tags = or_default (rows.tags server.id) [];
  node = or_default (rows.node server.id) "";
  running = false;
  players = 0;
  players_known = false;
}

cached : Option Cache → ℕ → String → Option ServerStatus
cached none now key = none
cached (some cache) now key = StatusCache.get cache key now

unfoldable pub server_env : Rows → Option Cache → ℕ → Server → ServerEnv
unfolding observed bare cached
server_env rows cache now server =
    observed (cached cache now server.management_id) (bare rows server)

-- The first of the list with the server's id, as the loop with `break` finds it.
find_env : ℕ → List ServerEnv → ServerEnv → ServerEnv
find_env id [] fallback = fallback
find_env id (candidate ∷ rest) fallback =
    if eqb candidate.id id then candidate else find_env id rest fallback

-- `buildEnv`; a failure to list the servers is its only error.
unfoldable pub build_env :
    Rows → Option Cache → TimeEnv → Server → Option UserEnv → Result String Env
unfolding find_env bare server_env
build_env rows cache time server user = do
  servers ← rows.servers
  let envs = map (server_env rows cache time.now) servers
  ok (record {
    server = find_env server.id envs (bare rows server);
    servers = envs;
    user = user;
    time = time;
    action = "";
  })

-- `HasTag`, `InList`
abbrev pub in_list : List String → String → Bool
in_list list item = any (λ v. v == item) list

abbrev pub has_tag : ServerEnv → String → Bool
has_tag s tag = in_list s.tags tag

unfoldable pub filter_by_node : String → List ServerEnv → List ServerEnv
filter_by_node node = keep (λ s. s.node == node)

unfoldable pub filter_running : List ServerEnv → List ServerEnv
filter_running = keep (λ s. s.running)

unfoldable pub filter_by_tag : String → List ServerEnv → List ServerEnv
filter_by_tag tag = keep (λ s. has_tag s tag)

unfoldable pub count_running : List ServerEnv → ℕ
count_running [] = 0
count_running (s ∷ rest) = count_running rest + (if s.running then 1 else 0)

-- `ParseWeekday`, Sunday for a name that is none.
pub parse_weekday : String → ℕ
parse_weekday name =
    if name == "sunday"
    then 0
    else if name == "monday"
    then 1
    else if name == "tuesday"
    then 2
    else if name == "wednesday"
    then 3
    else if name == "thursday"
    then 4
    else if name == "friday"
    then 5
    else if name == "saturday"
    then 6
    else 0
