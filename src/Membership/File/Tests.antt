-- ===== src/Membership/File/Tests.antt =====
-- Operations on a whitelist file of one name a line, as Valheim has it.
use mathlib.Core.List.Perm
use mathlib.Core.Path.{subst, ap₂}
use hogs.Prelude.{
  String, Bool, true, false, not, ◌&&◌, none, some, List, [], ◌∷◌, ◌==◌, if◌then◌else◌, ◌≡◌, ◌⊎◌,
  refl, sym, ap, eq_iff, arith,
}
use hogs.Prelude.Fallible.{Result, ok, err}
use hogs.Prelude.Text.{to_lower}
use hogs.Membership.Identity.{identities_equal, identity_key}
use hogs.Membership.Identity.Tests.{minecraft}
use hogs.Membership.File.{
  Entry, Request, Listing, FileDriver, Game, Node, read_file, has, without, put, decoded,
}
use hogs.Membership.File.Write.{file_operation}
use hogs.Membership.File.Write.Laws.{Stored, file_operation-remove, file_operation-add}
use hogs.Membership.File.Edits.{Added, NamesIt}
use hogs.Membership.File.Operation.{whitelist_operation}
use hogs.Membership.File.Operation.Guards.{MayWrite, whitelist_operation-guarded}

abbrev fox : Entry
fox = record { uuid = ""; name = "Fox" }

-- A file that holds nobody, or Fox.
abbrev encode : List Entry → Result String String
encode [] = ok ""
encode (e ∷ []) = if e.uuid == "" && e.name == "Fox" then ok "Fox" else err "not Fox"
encode (e ∷ _ ∷ _) = err "too many"

abbrev file : FileDriver
file = record {
  path = "whitelist.txt";
  allow_read_while_running = true;
  allow_write_while_running = false;
  changes_require_restart = false;
  decode = λ text. if text == "Fox" then ok (fox ∷ []) else err "unreadable";
  encode = encode;
  build_entry = none;
}

abbrev node : Node
node = record {
  running = ok false;
  running_again = ok false;
  execute = λ text. err "no console";
  is_readable = true;
  is_replaced = true;
  file_after = none;
  trimmed = λ text. text;
  sorted = λ entries. entries;
}

abbrev game : Game
game = record { driver = minecraft; commands = none; file = some file }

abbrev request : String → String → Request
request operation username = record {
  operation = operation;
  username = username;
  previous_username = "";
  external_id = "";
}

abbrev text_of : Result String String → String
text_of (ok t) = t
text_of (err e) = e

fox_lem : (e : Entry) → (e.uuid == "" && e.name == "Fox") ≡ true → fox ≡ e
fox_lem e h =
    let u = (eq_iff e.uuid "").0 (ground (arith, h)) in
    let n = (eq_iff e.name "Fox").0 (ground (arith, h)) in
    sym (ap₂ (λ (x y : String). record { uuid = x; name = y }) u n)

encode_step :
    (e : Entry) (b : Bool) (t : String)
    → (e.uuid == "" && e.name == "Fox") ≡ b
    → (if◌then◌else◌ {A = Result String String} b (ok "Fox") (err "not Fox")) ≡ ok t
    → decoded file t ≡ ok (e ∷ [])
unfolding decoded
encode_step e true t h k =
    subst (λ (x : String). decoded file x ≡ ok (e ∷ [])) (ap text_of k)
      (ap (λ (x : Entry). ok (x ∷ [])) (fox_lem e h))
encode_step e false t h k = absurd (cc)

reads_back : (xs : List Entry) (t : String) → encode xs ≡ ok t → decoded file t ≡ ok xs
unfolding decoded
reads_back [] t h = subst (λ (x : String). decoded file x ≡ ok []) (ap text_of h) refl
reads_back (e ∷ []) t h = encode_step e (e.uuid == "" && e.name == "Fox") t refl h
reads_back (e ∷ e' ∷ xs) t h = absurd (cc)

-- Fox is removed, and added.
after_removal :
    (whitelist_operation node (some game) (request "remove" "fox") (some "Fox")).1 ≡ some ""
unfolding whitelist_operation to_lower identities_equal identity_key without has read_file
after_removal = refl

after_addition : (whitelist_operation node (some game) (request "add" "Fox") none).1 ≡ some "Fox"
unfolding whitelist_operation to_lower identities_equal identity_key put read_file
after_addition = refl

file_operation-remove_example :
    (after : List Entry) × ((j : String)
      → has minecraft j after
        ≡ (has minecraft j (fox ∷ []) && not (identities_equal minecraft "fox" j)))
    × Stored node minecraft file after
        (record { mode = "offline"; output = ""; entries = [] })
        (file_operation node minecraft file (request "remove" "fox") false (some "Fox")).1
unfolding file_operation to_lower identities_equal identity_key without has read_file
file_operation-remove_example =
    file_operation-remove node minecraft file Perm.refl reads_back (request "remove" "fox") false
      (some "Fox") (fox ∷ []) (record { mode = "offline"; output = ""; entries = [] }) refl refl
      refl

names_it : NamesIt minecraft file
names_it build u x e h = absurd (cc)

file_operation-add_example :
    (after : List Entry) × Added minecraft file (request "add" "Fox") [] after
    × Stored node minecraft file after
        (record { mode = "offline"; output = ""; entries = fox ∷ [] })
        (file_operation node minecraft file (request "add" "Fox") false none).1
unfolding file_operation put read_file
file_operation-add_example =
    file_operation-add node minecraft file Perm.refl reads_back (request "add" "Fox") false none []
      (record { mode = "offline"; output = ""; entries = fox ∷ [] }) names_it refl refl refl

whitelist_operation-guarded_example :
    ((whitelist_operation node (some game) (request "add" "Fox") none).1 ≡ none)
    ⊎ ((running : Bool) × (node.running ≡ ok running)
        × MayWrite game.file running
        × (node.running_again ≡ ok running)
        × (l : Listing) × ((whitelist_operation node (some game) (request "add" "Fox") none).0
            ≡ ok l))
whitelist_operation-guarded_example =
    whitelist_operation-guarded node game (request "add" "Fox") none
