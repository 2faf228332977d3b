-- ===== src/Membership/File/Write/Guards.antt =====
-- When the whitelist file changes.
use hogs.Prelude.{
  String, Bool, true, false, Option, none, some, List, ◌==◌, ◌≡◌, ◌⊎◌, refl, Bool-cases, inl, inr,
}
use hogs.Prelude.Fallible.{Result, ok, err}
use hogs.Membership.Identity.{Driver}
use hogs.Membership.File.{Entry, Request, Code, Listing, FileDriver, Node, read_file, edit}
use hogs.Membership.File.Write.{
  replaced, same_state, write_file, answer, listing, finish, changed_or_listed, file_operation,
}

replaced_guard :
    (node : Node) (file : Option String) (text : Result String String)
    → ((replaced node file text).1 ≡ file) ⊎ ((replaced node file text).0 ≡ none)
unfolding replaced
replaced_guard node file (err e) = inl refl
replaced_guard node file (ok text) = elim (Bool-cases node.is_replaced) [
  | inl e ↦ inr (rw e refl)
  | inr e ↦ inl (rw e refl)
]

same_state_guard :
    (node : Node) (f : FileDriver) (running : Bool) (entries : List Entry) (file : Option String)
    (again : Result String Bool)
    → ((same_state node f running entries file again).1 ≡ file)
      ⊎ ((again ≡ ok running) × ((same_state node f running entries file again).0 ≡ none))
unfolding same_state
same_state_guard node f running entries file (err e) = inl refl
same_state_guard node f true entries file (ok false) = inl refl
same_state_guard node f false entries file (ok true) = inl refl
same_state_guard node f true entries file (ok true) =
    elim (replaced_guard node file (f.encode entries)) [ inl e ↦ inl e | inr e ↦ inr (refl, e) ]
same_state_guard node f false entries file (ok false) =
    elim (replaced_guard node file (f.encode entries)) [ inl e ↦ inl e | inr e ↦ inr (refl, e) ]

-- What a changed file comes with: the service is in the state of the start, and the answer is there.
abbrev pub Safe : Node → Bool → Result Code Listing → Type 0
Safe node running result = (node.running_again ≡ ok running) × (l : Listing) × (result ≡ ok l)

answer_guard :
    (node : Node) (running : Bool) (l : Listing) (file : Option String)
    (r : Option Code × Option String)
    → (r.1 ≡ file) ⊎ ((node.running_again ≡ ok running) × (r.0 ≡ none))
    → ((answer l r).1 ≡ file) ⊎ Safe node running (answer l r).0
unfolding answer
answer_guard node running l file (none, new) (inl e) = inl e
answer_guard node running l file (some c, new) (inl e) = inl e
answer_guard node running l file (none, new) (inr (s, e)) = inr (s, l, refl)
answer_guard node running l file (some c, new) (inr (s, e)) = absurd (cc)

finish_guard :
    (node : Node) (f : FileDriver) (running : Bool) (file : Option String)
    (r : Result Code (List Entry × Bool))
    → ((finish node f running file r).1 ≡ file) ⊎ Safe node running (finish node f running file r).0
unfolding finish write_file
finish_guard node f running file (err e) = inl refl
finish_guard node f running file (ok (after, false)) = inl refl
finish_guard node f running file (ok (after, true)) =
    answer_guard node running (listing f running (node.sorted after)) file _
      (same_state_guard node f running (node.sorted after) file node.running_again)

changed_or_listed_guard :
    (node : Node) (d : Driver) (f : FileDriver) (request : Request) (running : Bool)
    (file : Option String) (r : Result Code (List Entry))
    → ((changed_or_listed node d f request running file r).1 ≡ file)
      ⊎ (((request.operation == "list") ≡ false)
          × Safe node running (changed_or_listed node d f request running file r).0)
unfolding changed_or_listed
changed_or_listed_guard node d f request running file (err e) = inl refl
changed_or_listed_guard node d f request running file (ok entries) =
    elim (Bool-cases (request.operation == "list")) [
      | inl e ↦ inl (rw e refl)
      | inr e ↦ elim (finish_guard node f running file (edit d f request entries)) [
        | inl h ↦ inl (rw e h)
        | inr h ↦ inr (e, rw e h)
      ]
    ]

pub file_operation_guard :
    (node : Node) (d : Driver) (f : FileDriver) (request : Request) (running : Bool)
    (file : Option String)
    → ((file_operation node d f request running file).1 ≡ file)
      ⊎ (((request.operation == "list") ≡ false)
          × Safe node running (file_operation node d f request running file).0)
unfolding file_operation
file_operation_guard node d f request running file =
    changed_or_listed_guard node d f request running file (read_file node f file)
