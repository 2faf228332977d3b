-- ===== src/Gateway/Tests.antt =====
-- Runs of the gateway, and its theorems at concrete packets and steps.
use hogs.Prelude.{
  List, String, ℕ, arith, true, false, none, some, [], ◌∷◌, ◌++◌, ◌≤◌, ◌≡◌, refl, length, ◌↔◌,
}
use hogs.Prelude.Fallible.{ok}
use hogs.Gateway.Codec.{
  Bytes, append_var_int, read_packet, parse_handshake, parse_login_username, all_username_bytes,
  minecraft_packet, minecraft_string,
}
use hogs.Gateway.Codec.Messages.{
  read_packet-minecraft_packet, handshake_bytes, parse_handshake-handshake_bytes,
  parse_login_username_iff,
}
use hogs.Gateway.Logins.{Within, allow_offline_login, logins, allow_offline_login_again}
use hogs.Gateway.Wake.{Settings, request_wake, estimated_boot_locked, new_minecraft_gateway}
use hogs.Gateway.Wake.Tasks.{
  World, Step, Reach, IsSound, opened, after_request, counted, Reach-IsSound,
}

var_int_300 : append_var_int [] 300 ≡ 172 ∷ 2 ∷ []
unfolding append_var_int
var_int_300 = refl

abbrev steve : Bytes
steve = 83 ∷ 116 ∷ 101 ∷ 118 ∷ 101 ∷ []

read_packet-minecraft_packet_example :
    read_packet (minecraft_packet steve ++ 7 ∷ []) ≡ ok (steve, minecraft_packet steve, 7 ∷ [])
read_packet-minecraft_packet_example =
    read_packet-minecraft_packet steve (7 ∷ []) (omega arith) (omega arith)

parse_handshake-handshake_bytes_example :
    parse_handshake (handshake_bytes 763 steve 99 221 2 [])
    ≡ ok (record { protocol = 763; host = steve; port = 25565; next_state = 2 })
parse_handshake-handshake_bytes_example =
    parse_handshake-handshake_bytes 763 steve 99 221 2 [] (omega arith) (omega arith) (omega arith)
      (omega arith)

parse_login_username_iff_example :
    (parse_login_username (append_var_int [] 0 ++ (minecraft_string steve ++ [])) ≡ ok steve)
    ↔ ((3 ≤ length steve) × (length steve ≤ 64) × (all_username_bytes steve ≡ true))
parse_login_username_iff_example = parse_login_username_iff steve [] (omega arith)

abbrev settings : Settings
settings = record { wake_cooldown = 30; default_boot = 120 }

abbrev closed : World
closed = opened false false 0 (70 ∷ 90 ∷ []) none

woken : Reach settings closed (after_request 100 closed (request_wake settings 100 closed.gateway))
woken = Reach.more Reach.done (Step.wake 100)

one_start : (after_request 100 closed (request_wake settings 100 closed.gateway)).tasks ≡ 1
unfolding after_request request_wake opened counted new_minecraft_gateway
one_start = refl

Reach-IsSound_example :
    IsSound settings (after_request 100 closed (request_wake settings 100 closed.gateway))
Reach-IsSound_example = Reach-IsSound settings false false 0 (70 ∷ 90 ∷ []) none (omega arith) woken

estimate : estimated_boot_locked settings closed.gateway ≡ some 90
unfolding estimated_boot_locked opened new_minecraft_gateway
estimate = refl

abbrev others : List (String × ℕ)
others = ("10.0.0.2", 12) ∷ ("10.0.0.1", 13) ∷ []

allow_offline_login_again_example :
    (allow_offline_login 5
      (logins 5 others (allow_offline_login 5 [] "10.0.0.1" 10).0)
      "10.0.0.1"
      14).1
    ≡ false
unfolding allow_offline_login Within
allow_offline_login_again_example =
    allow_offline_login_again 5 "10.0.0.1" 10 14 others [] refl
      ((omega arith, omega arith), ((omega arith, omega arith), tt)) (omega arith) (omega arith)
