-- ===== src/Access/Tests.antt =====
-- Runs of the access decision.
use hogs.Prelude.{true, false, List, [], ◌∷◌, ◌≡◌, refl}
use hogs.Prelude.Fallible.{ok}
use hogs.Access.{Grant, known, grants, applies, evaluate_server_access}
use hogs.Access.Rule.{permits, evaluate_server_access-deny_wins}

abbrev players : Grant
players = record {
  subject_type = "group";
  subject = "players";
  effect = "allow";
  capabilities = "server.join" ∷ "command" ∷ [];
}

abbrev banned : Grant
banned = record {
  subject_type = "user";
  subject = "Mallory";
  effect = "deny";
  capabilities = "*" ∷ [];
}

abbrev list : List Grant
list = players ∷ banned ∷ []

player_joins :
    permits (evaluate_server_access (ok list) "alice" ("players" ∷ []) "server.join") ≡ true
unfolding evaluate_server_access
player_joins = refl

player_commands :
    permits (evaluate_server_access (ok list) "alice" ("players" ∷ []) "command:say") ≡ true
unfolding evaluate_server_access
player_commands = refl

banned_refused :
    permits (evaluate_server_access (ok list) "mallory" ("players" ∷ []) "server.join") ≡ false
unfolding evaluate_server_access
banned_refused = refl

known_names : (known "server.join" ≡ true) × (known "server.fly" ≡ false)
unfolding known
known_names = (refl, refl)

evaluate_server_access-deny_wins_example :
    permits (evaluate_server_access (ok list) "mallory" ("players" ∷ []) "server.join") ≡ false
unfolding applies grants
evaluate_server_access-deny_wins_example =
    evaluate_server_access-deny_wins list "mallory" ("players" ∷ []) "server.join"
