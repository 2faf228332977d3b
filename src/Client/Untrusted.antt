-- ===== src/Client/Untrusted.antt =====
-- What the headers of a request can say of its client.
use hogs.Prelude.{
  Bool, true, false, Option, none, some, List, [], ◌∷◌, ◌≡◌, ◌⊎◌, refl, ◌∙◌, Bool-cases,
  Option-cases, inl, inr,
}
use hogs.Client.{
  Bytes, Network, Headers, Request, host_of, addresses, countries, first_address, remote_ip,
  client_ip, is_country, first_country, client_country,
}

module _ (net : Network) where
  first_country_lem :
      (headers : List Bytes)
      → (first_country net headers ≡ []) ⊎ (is_country net (first_country net headers) ≡ true)
  unfolding first_country
  first_country_lem [] = inl refl
  first_country_lem (header ∷ headers) =
      elim (Bool-cases (is_country net (net.to_upper (net.trim_space header)))) [
        | inl e ↦ inr (rw e e)
        | inr e ↦ elim (first_country_lem headers) [ inl h ↦ inl (rw e h) | inr h ↦ inr (rw e h) ]
      ]

  -- An address is one that the parser gave, or empty.
  unfoldable pub IsAddress : Bytes → Type 0
  IsAddress ip = (ip ≡ []) ⊎ ((text : Bytes) × (net.parse_ip text ≡ some ip))

  parsed_lem :
      (text : Bytes) (o : Option Bytes)
      → net.parse_ip text ≡ o
      → IsAddress (elim o [ some ip ↦ ip | none ↦ [] ])
  unfolding IsAddress
  parsed_lem text none h = inl refl
  parsed_lem text (some ip) h = inr (text, h)

  remote_ip-IsAddress : (address : Bytes) → IsAddress (remote_ip net address)
  unfolding remote_ip IsAddress
  remote_ip-IsAddress address =
      parsed_lem (net.trim_brackets (host_of net (net.trim_space address))) _ refl

  first_address-some :
      (candidates : List Bytes) (ip : Bytes)
      → first_address net candidates ≡ some ip
      → (text : Bytes) × (net.parse_ip text ≡ some ip)
  unfolding first_address
  first_address-some [] ip h = absurd (cc)
  first_address-some (candidate ∷ candidates) ip h =
      elim (Option-cases (net.parse_ip (net.trim_space candidate))) [
        | inl e ↦ first_address-some candidates ip (rw (first_address, e) at h)
        | inr (found, e) ↦ (net.trim_space candidate, e ∙ (rw (first_address, e) at h))
      ]

  chosen_lem :
      (candidates : List Bytes) (address : Bytes) (o : Option Bytes)
      → first_address net candidates ≡ o
      → IsAddress (elim o [ some ip ↦ ip | none ↦ remote_ip net address ])
  unfolding IsAddress
  chosen_lem candidates address none h = remote_ip-IsAddress address
  chosen_lem candidates address (some ip) h = inr (first_address-some candidates ip h)

  client_ip-IsAddress : (trust : Bool) (r : Request) → IsAddress (client_ip net r trust)
  unfolding client_ip
  client_ip-IsAddress false r = remote_ip-IsAddress r.remote_addr
  client_ip-IsAddress true r =
      chosen_lem (addresses net r.headers) r.remote_addr
        (first_address net (addresses net r.headers)) refl

  client_country-is_country :
      (trust : Bool) (r : Request)
      → (client_country net r trust ≡ []) ⊎ (is_country net (client_country net r trust) ≡ true)
  unfolding client_country
  client_country-is_country false r = inl refl
  client_country-is_country true r = first_country_lem (countries net r.headers)

  -- Without trust in the proxy the address does not depend on the headers, and there is no country;
  -- with it or without, the address is empty or one that the parser gave, and the country is empty or
  -- two capital letters.
  pub client_ip-client_country :
      (trust : Bool) (r : Request) (headers : Headers)
      → (client_ip net r false ≡ client_ip net (record r { headers = headers }) false)
        × (client_country net r false ≡ [])
        × IsAddress (client_ip net r trust)
        × ((client_country net r trust ≡ []) ⊎ (is_country net (client_country net r trust) ≡ true))
  unfolding client_ip client_country
  client_ip-client_country trust r headers =
      (refl, refl, client_ip-IsAddress trust r, client_country-is_country trust r)
