-- ===== src/Client.antt =====
-- auth/client_ip.go: the address and the country of a client, which the sign-in and the access log
-- ask for. `net.ParseIP` with its text form, `net.SplitHostPort` and the functions of `strings` are
-- given.
pub mod Untrusted
mod Tests
use hogs.Prelude.{
  ℕ, Bool, true, false, not, ◌&&◌, Option, none, some, List, [], ◌∷◌, eqb, leb, if◌then◌else◌,
}

abbrev pub Bytes : Type 0
Bytes = List ℕ

pub record Network : Type 0 where
  pub parse_ip : Bytes → Option Bytes
  pub split_host : Bytes → Option Bytes
  pub trim_space : Bytes → Bytes
  pub trim_brackets : Bytes → Bytes
  pub to_upper : Bytes → Bytes

-- The headers of a request; a header that is not there is empty.
pub record Headers : Type 0 where
  pub forwarded_for : Bytes
  pub connecting_ip : Bytes
  pub real_ip : Bytes
  pub ip_country : Bytes
  pub cdn_country_code : Bytes
  pub country_code : Bytes

pub record Request : Type 0 where
  pub headers : Headers
  pub remote_addr : Bytes

-- `firstForwardedAddress`: what stands before the first comma.
unfoldable pub first_forwarded_address : Bytes → Bytes
first_forwarded_address [] = []
first_forwarded_address (b ∷ value) =
    let rest = first_forwarded_address value in if eqb b b',' then [] else b ∷ rest

module _ (net : Network) where
  -- The first candidate that is an address.
  unfoldable pub first_address : List Bytes → Option Bytes
  first_address [] = none
  first_address (candidate ∷ candidates) =
      let later = first_address candidates in
      elim (net.parse_ip (net.trim_space candidate)) [ some ip ↦ some ip | none ↦ later ]

  unfoldable pub host_of : Bytes → Bytes
  host_of address = elim (net.split_host address) [ some host ↦ host | none ↦ address ]

  unfoldable pub remote_ip : Bytes → Bytes
  unfolding host_of
  remote_ip address = elim (net.parse_ip (net.trim_brackets (host_of (net.trim_space address)))) [
    | some ip ↦ ip
    | none ↦ []
  ]

  -- The headers that may hold the address, in the order in which they count.
  abbrev pub addresses : Headers → List Bytes
  addresses h = first_forwarded_address h.forwarded_for ∷ h.connecting_ip ∷ h.real_ip ∷ []

  -- `ClientIP`
  unfoldable pub client_ip : Request → Bool → Bytes
  unfolding first_address first_forwarded_address remote_ip
  client_ip r false = remote_ip r.remote_addr
  client_ip r true = elim (first_address (addresses r.headers)) [
    | some ip ↦ ip
    | none ↦ remote_ip r.remote_addr
  ]

  unfoldable pub is_capital : ℕ → Bool
  is_capital b = leb b'A' b && leb b b'Z'

  -- Two capital letters.
  unfoldable pub is_country : Bytes → Bool
  unfolding is_capital
  is_country (a ∷ b ∷ []) = is_capital a && is_capital b
  is_country _ = false

  unfoldable pub first_country : List Bytes → Bytes
  unfolding is_country
  first_country [] = []
  first_country (header ∷ headers) =
      let later = first_country headers in
      let country = net.to_upper (net.trim_space header) in
      if is_country country then country else later

  abbrev pub countries : Headers → List Bytes
  countries h = h.ip_country ∷ h.cdn_country_code ∷ h.country_code ∷ []

  -- `ClientCountry`
  unfoldable pub client_country : Request → Bool → Bytes
  unfolding first_country
  client_country r false = []
  client_country r true = first_country (countries r.headers)
