-- ===== src/StatusCache/Tests.antt =====
-- Runs of the cache.
use hogs.Prelude.{◌+◌, String, true, false, List, [], ◌∷◌, none, some, ◌≡◌, refl, ◌↔◌}
use hogs.Prelude.Dict.{empty, put}
use hogs.StatusCache.{
  Player, ServerStatus, Cache, Change, latest, same_players, observation_changed, merged, set,
  set_agent_observation,
}
use hogs.StatusCache.Players.{count, same_players_iff}
use hogs.StatusCache.Changes.{Write, queried, observed, run, heard, online_of}
use hogs.StatusCache.Interleavings.{World, Step, Reach, stored, ups, downs, bit, Reach-counted}

abbrev alice : Player
alice = record { name = "alice"; id = "1" }

abbrev bob : Player
bob = record { name = "bob"; id = "2" }

abbrev up : ServerStatus
up = record {
  online = true;
  players = 2;
  max_players = 10;
  players_known = true;
  player_list = some (alice ∷ bob ∷ []);
  version = "1.21";
  map_name = "world";
  server_message = "hello";
  last_updated = 5;
  error = "";
  extras = some (put "mods" "3" empty);
}

-- What an agent reports: no names, version, map or message.
abbrev seen : ServerStatus
seen = record up {
  players = 1;
  player_list = none;
  version = "";
  map_name = "";
  server_message = "";
  extras = some (put "gateway" "{}" empty);
}

abbrev down : ServerStatus
down = record seen { online = false }

abbrev cached : Cache
cached = put "valheim" (record { status = up; timestamp = 5 }) empty

same_players_runs :
    (same_players (some (alice ∷ bob ∷ [])) (some (bob ∷ alice ∷ [])) ≡ true)
    × (same_players (some (alice ∷ bob ∷ [])) (some (bob ∷ bob ∷ [])) ≡ false)
unfolding same_players
same_players_runs = (refl, refl)

same_players_iff_example :
    (same_players (some (alice ∷ bob ∷ [])) (some (bob ∷ alice ∷ [])) ≡ true)
    ↔ ((key : String) → count key (alice ∷ bob ∷ []) ≡ count key (bob ∷ alice ∷ []))
same_players_iff_example = same_players_iff (alice ∷ bob ∷ []) (bob ∷ alice ∷ [])

abbrev writes : List Write
writes = observed seen 20 ∷ observed down 40 ∷ queried up 60 ∷ observed down 70 ∷ []

run_reports : heard true (run "valheim" cached writes).1 ≡ false
unfolding run set_agent_observation observation_changed same_players
run_reports = refl

-- An agent says that the server is down, a query that it is up, and the later report comes first.
abbrev both_stored : World
both_stored =
    stored "valheim" (queried up 60)
      (stored "valheim" (observed down 40) (record { cache = cached; pending = []; heard = [] }))

abbrev came_up : Change
came_up = record {
  server_id = "valheim";
  old_status = merged (cached "valheim") down;
  new_status = up;
}

abbrev went_down : Change
went_down = record { server_id = "valheim"; old_status = up; new_status = down }

abbrev overtaken : World
overtaken = record both_stored { pending = went_down ∷ []; heard = came_up ∷ [] }

overtaken-Reach : Reach "valheim" cached overtaken
unfolding set_agent_observation observation_changed set merged
overtaken-Reach =
    Reach.more
      (Reach.more (Reach.more Reach.begin (Step.stores (observed down 40)))
        (Step.stores (queried up 60)))
      (Step.reports [] (went_down ∷ []) came_up refl)

Reach-counted_example :
    ups overtaken.heard + ups overtaken.pending + bit true
    ≡ downs overtaken.heard
      + downs overtaken.pending
      + bit (online_of true (latest overtaken.cache "valheim"))
Reach-counted_example =
    Reach-counted "valheim" cached true (record { status = up; timestamp = 5 }) refl overtaken-Reach
