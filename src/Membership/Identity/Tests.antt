-- ===== src/Membership/Identity/Tests.antt =====
-- Runs of the search for the users who are wanted.
use hogs.Prelude.{String, true, false, some, List, [], ◌∷◌, ◌==◌, not, ◌≡◌, refl}
use hogs.Prelude.Fallible.{ok}
use hogs.Access.{Grant, evaluate_server_access}
use hogs.Membership.Identity.{
  Driver, User, authentik_identity, identified, looked_up, admitted, standing_of, with_standing,
  consed, gather,
}

abbrev pub minecraft : Driver
minecraft = record {
  case_sensitive = false;
  identity_provider = "minecraft-java";
  resolve = λ name subject. name;
  is_valid = λ name. not (name == "");
}

abbrev pub grant : Grant
grant = record {
  subject_type = "group";
  subject = "players";
  effect = "allow";
  capabilities = "server.join" ∷ [];
}

abbrev user : String → List String → String → User
user username groups source = record {
  username = username;
  role = "user";
  is_active = true;
  groups = ok groups;
  identity = ok (some (record { username = "Fox"; external_id = "7"; source = source }));
}

abbrev pub users : List User
users =
    user "ann" ("players" ∷ []) "scim"
    ∷ user "ben" [] "scim"
    ∷ user "cat" ("players" ∷ []) "self"
    ∷ []

-- Only Ann may join with a verified identity.
pub gathered_users :
    gather minecraft (ok (grant ∷ [])) "server.join" users ≡ ok (("ann", "Fox") ∷ [])
unfolding gather standing_of evaluate_server_access authentik_identity consed with_standing admitted
    looked_up identified
gathered_users = refl
