-- ===== src/Client/Tests.antt =====
-- The client of a request behind a proxy, with addresses of the form 9x.
use hogs.Prelude.{true, false, Option, none, some, [], ◌∷◌, eqb, if◌then◌else◌, ◌≡◌, ◌⊎◌, refl}
use hogs.Client.{Bytes, Network, Headers, Request, client_ip, is_country, client_country}
use hogs.Client.Untrusted.{IsAddress, client_ip-client_country}

abbrev parse : Bytes → Option Bytes
parse (a ∷ b ∷ []) = if eqb a 57 then some (a ∷ b ∷ []) else none
parse _ = none

abbrev net : Network
net = record {
  parse_ip = parse;
  split_host = λ text. none;
  trim_space = λ text. text;
  trim_brackets = λ text. text;
  to_upper = λ text. text;
}

abbrev none_given : Headers
none_given = record {
  forwarded_for = [];
  connecting_ip = [];
  real_ip = [];
  ip_country = [];
  cdn_country_code = [];
  country_code = [];
}

-- 91, then 92 behind a comma; the country is DE.
abbrev proxied : Request
proxied = record {
  headers = record none_given {
    forwarded_for = 57 ∷ 49 ∷ 44 ∷ 57 ∷ 50 ∷ [];
    cdn_country_code = 68 ∷ 69 ∷ [];
  };
  remote_addr = 57 ∷ 55 ∷ [];
}

trusted :
    (client_ip net proxied true ≡ 57 ∷ 49 ∷ []) × (client_country net proxied true ≡ 68 ∷ 69 ∷ [])
unfolding client_ip client_country
trusted = (refl, refl)

untrusted : (client_ip net proxied false ≡ 57 ∷ 55 ∷ []) × (client_country net proxied false ≡ [])
unfolding client_ip client_country
untrusted = (refl, refl)

client_ip-client_country_example :
    (client_ip net proxied false ≡ client_ip net (record proxied { headers = none_given }) false)
    × (client_country net proxied false ≡ [])
    × IsAddress net (client_ip net proxied true)
    × ((client_country net proxied true ≡ [])
        ⊎ (is_country net (client_country net proxied true) ≡ true))
client_ip-client_country_example = client_ip-client_country net true proxied none_given
