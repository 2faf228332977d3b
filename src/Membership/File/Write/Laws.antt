-- ===== src/Membership/File/Write/Laws.antt =====
-- The whitelist file after an operation: what an addition or a removal that is answered has stored.
use mathlib.Core.List.{Perm}
use mathlib.Core.Path.{subst}
use hogs.Prelude.{
  String, Bool, true, false, not, ◌&&◌, Option, none, some, List, ◌==◌, any-perm, if◌then◌else◌,
  ◌≡◌, ◌⊎◌, refl, sym, ap, ◌∙◌, Bool-cases, inl, inr,
}
use hogs.Prelude.Fallible.{Result, ok, err}
use hogs.Membership.Identity.{Driver, identities_equal}
use hogs.Membership.File.{
  Entry, Request, Code, Listing, FileDriver, Node, decoded, read_file, has, edit,
}
use hogs.Membership.File.Write.{
  replaced, same_state, write_file, answer, listing, finish, changed_or_listed, file_operation,
}
use hogs.Membership.File.Edits.{
  OnOk, Same, NamesIt, Added, edit_unchanged, edit_removed, edit-Added,
}

-- What holds of an answer and the file with it.
abbrev OnAnswer : (Listing → Option String → Type 0) → Result Code Listing × Option String → Type 0
OnAnswer P (ok l, file) = P l file
OnAnswer P (err e, file) = Unit

abbrev listing_or : Listing → Result Code Listing → Listing
listing_or l (ok k) = k
listing_or l (err e) = l

OnAnswer-weaken :
    (P Q : Listing → Option String → Type 0) (r : Result Code Listing × Option String)
    → OnAnswer P r
    → ((l : Listing) (file : Option String) → P l file → Q l file)
    → OnAnswer Q r
OnAnswer-weaken P Q (ok l, file) h k = k l file h
OnAnswer-weaken P Q (err c, file) h k = tt

if_lem : {A : Type 0} (P : A → Type 0) (b : Bool) (x y : A) → P x → P y → P (if b then x else y)
if_lem P true x y h k = h
if_lem P false x y h k = k

OnAnswer-holds :
    (P : Listing → Option String → Type 0) (r : Result Code Listing × Option String) (l : Listing)
    → OnAnswer P r
    → r.0 ≡ ok l
    → P l r.1
OnAnswer-holds P (ok l, file) k h e = subst (λ (x : Listing). P x file) (ap (listing_or l) e) h
OnAnswer-holds P (err c, file) k h e = absurd (cc)

-- The file holds these identities, and so does the answer.
pub record Stored (node : Node) (d : Driver) (f : FileDriver) (after : List Entry) (l : Listing)
    (file : Option String) : Type 0 where
  pub stored : List Entry
  pub is_read : read_file node f file ≡ ok stored
  pub in_file : (j : String) → has d j stored ≡ has d j after
  pub in_answer : (j : String) → has d j l.entries ≡ has d j after

Result-cases :
    {A : Type 0} (r : Result String A) → ((a : A) × (r ≡ ok a)) ⊎ ((e : String) × (r ≡ err e))
Result-cases (ok a) = inl (a, refl)
Result-cases (err e) = inr (e, refl)

not_ok : (xs : List Entry) → ◌≡◌ {A = Result Code (List Entry)} (err Code.read_failed) (ok xs) → ⊥
not_ok xs h = cc

module _ (node : Node) (d : Driver) (f : FileDriver)
    (permutes : (xs : List Entry) → Perm (node.sorted xs) xs)
    (reads_back : (xs : List Entry) (t : String) → f.encode xs ≡ ok t → decoded f t ≡ ok xs) where
  has-sorted : (j : String) (xs : List Entry) → has d j (node.sorted xs) ≡ has d j xs
  unfolding has
  has-sorted j xs = any-perm (λ e. identities_equal d e.name j) (permutes xs)

  -- A change that is answered is in the file.
  replaced_lem :
      (running : Bool) (after : List Entry) (file : Option String) (text : Result String String)
      → f.encode (node.sorted after) ≡ text
      → node.is_readable ≡ true
      → OnAnswer
          (Stored node d f after)
          (answer (listing f running (node.sorted after)) (replaced node file text))
  unfolding answer listing read_file replaced
  replaced_lem running after file (err e) h r = tt
  replaced_lem running after file (ok t) h r =
      if_lem
        (λ x. OnAnswer (Stored node d f after) (answer (listing f running (node.sorted after)) x))
        node.is_replaced (none, some t) (some Code.write_failed, file)
        (record {
          stored = node.sorted after;
          is_read =
              ap (λ (b : Bool). if b then decoded f t else err Code.read_failed) r
              ∙ reads_back (node.sorted after) t h;
          in_file = λ j. has-sorted j after;
          in_answer = λ j. has-sorted j after;
        })
        tt

  same_state_lem :
      (running : Bool) (after : List Entry) (file : Option String) (again : Result String Bool)
      → node.is_readable ≡ true
      → OnAnswer (Stored node d f after) (
          answer
            (listing f running (node.sorted after))
            (same_state node f running (node.sorted after) file again))
  unfolding answer same_state
  same_state_lem running after file (err e) h = tt
  same_state_lem running after file (ok active) h = elim (Bool-cases (active && not running)) [
    | inl s ↦ rw s tt
    | inr s ↦ elim (Bool-cases (running && not active)) [
      | inl t ↦ rw (s, t) tt
      | inr t ↦ rw (s, t) (replaced_lem running after file (f.encode (node.sorted after)) refl h)
    ]
  ]

  is_readable_lem :
      (file : Option String) (before : List Entry)
      → read_file node f file ≡ ok before
      → node.is_readable ≡ true
  unfolding read_file
  is_readable_lem none before h = elim (Bool-cases node.is_readable) [
    | inl e ↦ e
    | inr e ↦ absurd (not_ok before (rw e at h))
  ]
  is_readable_lem (some t) before h = elim (Bool-cases node.is_readable) [
    | inl e ↦ e
    | inr e ↦ absurd (not_ok before (rw e at h))
  ]

  finish_lem :
      (Q : List Entry → Type 0) (running : Bool) (file : Option String) (before : List Entry)
      (r : Result Code (List Entry × Bool))
      → read_file node f file ≡ ok before
      → OnOk (Same before) r
      → OnOk (λ x. Q x.0) r
      → OnAnswer
          (λ l new. (after : List Entry) × Q after × Stored node d f after l new)
          (finish node f running file r)
  unfolding finish listing write_file
  finish_lem Q running file before (err e) h s q = tt
  finish_lem Q running file before (ok (after, false)) h s q = (
    after,
    q,
    record {
      stored = before;
      is_read = h;
      in_file = λ j. ap (has d j) (sym (s refl));
      in_answer = λ j. has-sorted j after;
    },
  )
  finish_lem Q running file before (ok (after, true)) h s q =
      OnAnswer-weaken (Stored node d f after) _
        (answer (listing f running (node.sorted after))
          (write_file node f running (node.sorted after) file))
        (same_state_lem running after file node.running_again (is_readable_lem file before h))
        (λ l new k. (after, q, k))

  file_lem :
      (Q : List Entry → Type 0) (request : Request) (running : Bool) (file : Option String)
      (before : List Entry) (l : Listing)
      → (request.operation == "list") ≡ false
      → read_file node f file ≡ ok before
      → OnOk (λ x. Q x.0) (edit d f request before)
      → (file_operation node d f request running file).0 ≡ ok l
      → (after : List Entry) × Q after
        × Stored node d f after l (file_operation node d f request running file).1
  unfolding file_operation
  file_lem Q request running file before l o h q =
      OnAnswer-holds (λ k new. (after : List Entry) × Q after × Stored node d f after k new)
        (file_operation node d f request running file) l
        (subst
          (λ (r : Result Code (List Entry)).
            OnAnswer (λ k new. (after : List Entry) × Q after × Stored node d f after k new)
              (changed_or_listed node d f request running file r))
          (sym h)
          (subst
            (λ (b : Bool).
              OnAnswer (λ k new. (after : List Entry) × Q after × Stored node d f after k new)
                (if b
                  then (ok (listing f running before), file)
                  else finish node f running file (edit d f request before)))
            (sym o)
            (finish_lem Q running file before (edit d f request before) h
              (edit_unchanged d f request before) q)))

  -- A removal that is answered: a reading of the file, before which the agent read the entries
  -- `before`, gives exactly the other identities, and so does the answer. The driver reads back what it
  -- encodes, and the sorting permutes.
  pub file_operation-remove :
      (request : Request) (running : Bool) (file : Option String) (before : List Entry)
      (l : Listing)
      → request.operation ≡ "remove"
      → read_file node f file ≡ ok before
      → (file_operation node d f request running file).0 ≡ ok l
      → (after : List Entry) × ((j : String)
          → has d j after ≡ (has d j before && not (identities_equal d request.username j)))
        × Stored node d f after l (file_operation node d f request running file).1
  file_operation-remove request running file before l r h =
      file_lem
        (λ after.
          (j : String)
          → has d j after ≡ (has d j before && not (identities_equal d request.username j)))
        request running file before l (ap (λ (x : String). x == "list") r) h
        (edit_removed d f request before r)

  -- An addition that is answered: a reading of the file, and the answer, has the identity, not the
  -- former one where the request names another, nobody who was not there before, and everybody else
  -- who was there in an entry that is not the requested one by its name or its UUID. The driver
  -- reads back what it encodes, names an entry as requested, and the sorting permutes.
  pub file_operation-add :
      (request : Request) (running : Bool) (file : Option String) (before : List Entry)
      (l : Listing)
      → NamesIt d f
      → request.operation ≡ "add"
      → read_file node f file ≡ ok before
      → (file_operation node d f request running file).0 ≡ ok l
      → (after : List Entry) × Added d f request before after
        × Stored node d f after l (file_operation node d f request running file).1
  file_operation-add request running file before l n r h =
      file_lem (Added d f request before) request running file before l
        (ap (λ (x : String). x == "list") r) h (edit-Added d f request before n r)
