-- ===== src/Membership/File/Edits.antt =====
-- The identities in a whitelist after each of its edits.
mod Identities
use mathlib.Core.Path.{ap₂}
use hogs.Prelude.{
  contradicts, String, Bool, true, false, not, ◌&&◌, some, List, [], ◌∷◌, ◌==◌, eq_iff,
  if◌then◌else◌, ◌≡◌, refl, sym, ap, ◌∙◌, arith, Bool-cases, Option-cases, inl, inr,
}
use hogs.Prelude.Text.{codes_eq, codes_eq→eq, codes_eq_refl}
use hogs.Membership.Identity.{Driver, Key, identity_key, identities_equal}
use hogs.Prelude.Fallible.{Result, ok, err, ◌>>=◌}
use hogs.Membership.File.{
  edit, FileDriver, Code, BuildError, built, Entry, Request, without, has, put, is_place,
  same_entry, added, replaces_previous,
}
use hogs.Membership.File.Edits.Identities.{
  same_identity, distinct, identical, has-without, has-put, has-put_other, has-put-others,
  has-others-without, others, without_absent, put_unchanged,
}

-- What holds of a result that is there.
abbrev pub OnOk : {A : Type 0} → (A → Type 0) → Result Code A → Type 0
OnOk P (ok a) = P a
OnOk P (err e) = Unit

pub OnOk-if :
    {A : Type 0} (P : A → Type 0) (b : Bool) (m n : Result Code A)
    → (b ≡ true → OnOk P m)
    → (b ≡ false → OnOk P n)
    → OnOk P (if b then m else n)
OnOk-if P true m n h k = h refl
OnOk-if P false m n h k = k refl

pub OnOk-bind :
    {A B : Type 0} (Q : A → Type 0) (P : B → Type 0) (m : Result Code A) (f : A → Result Code B)
    → OnOk Q m
    → ((a : A) → Q a → OnOk P (f a))
    → OnOk P (m >>= f)
OnOk-bind Q P (ok a) f h k = k a h
OnOk-bind Q P (err e) f h k = tt

OnOk-any : {A : Type 0} (m : Result Code A) → OnOk (λ _. Unit {0}) m
OnOk-any (ok a) = tt
OnOk-any (err e) = tt

-- An edit is a removal, or the addition of an entry that the driver builds.
edit_cases :
    (Q : Entry → Type 0) (P : List Entry × Bool → Type 0) (d : Driver) (f : FileDriver)
    (request : Request) (entries : List Entry)
    → OnOk Q (built f request)
    → ((request.operation == "remove") ≡ true
        → P (without d request.username entries, has d request.username entries))
    → ((request.operation == "remove") ≡ false
        → (entry : Entry) → Q entry
        → P (added d request entries entry))
    → OnOk P (edit d f request entries)
unfolding edit
edit_cases Q P d f request entries b r a =
    OnOk-if P (not (request.operation == "add") && not (request.operation == "remove"))
      (err Code.invalid_operation) _ (λ _. tt)
      (λ _.
        OnOk-if P (not (d.is_valid request.username)) (err Code.invalid_identity) _ (λ _. tt)
          (λ _.
            OnOk-if P (request.operation == "remove")
              (ok (without d request.username entries, has d request.username entries))
              (built f request >>= λ entry. ok (added d request entries entry)) r
              (λ e.
                OnOk-bind Q P (built f request) (λ entry. ok (added d request entries entry)) b
                  (a e))))

abbrev pub Same : List Entry → List Entry × Bool → Type 0
Same entries r = r.1 ≡ false → r.0 ≡ entries

added_unchanged :
    (d : Driver) (request : Request) (entries : List Entry) (entry : Entry)
    → Same entries (added d request entries entry)
unfolding added
added_unchanged d request entries entry = elim (Bool-cases (replaces_previous d request)) [
  | inl e ↦ rw e (λ h.
      put_unchanged d request.username entry (without d request.previous_username entries)
        (ground (arith, h))
      ∙ without_absent d request.previous_username entries (ground (arith, h)))
  | inr e ↦ rw e (put_unchanged d request.username entry entries)
]

-- Where an edit reports no change there is none.
pub edit_unchanged :
    (d : Driver) (f : FileDriver) (request : Request) (entries : List Entry)
    → OnOk (Same entries) (edit d f request entries)
edit_unchanged d f request entries =
    edit_cases (λ _. Unit {0}) (Same entries) d f request entries (OnOk-any (built f request))
      (λ _. without_absent d request.username entries)
      (λ _ entry _. added_unchanged d request entries entry)

pub edit_removed :
    (d : Driver) (f : FileDriver) (request : Request) (entries : List Entry)
    → request.operation ≡ "remove"
    → OnOk
        (λ r.
          (j : String)
          → has d j r.0 ≡ (has d j entries && not (identities_equal d request.username j)))
        (edit d f request entries)
edit_removed d f request entries h =
    edit_cases (λ _. Unit {0}) _ d f request entries (OnOk-any (built f request))
      (λ _ j. has-without d j request.username entries)
      (λ e. absurd (contradicts (sym (ap (λ (x : String). x == "remove") h) ∙ e)))

-- The entry that a driver builds for a name has that name.
abbrev pub NamesIt : Driver → FileDriver → Type 0
NamesIt d f =
    (build : String → String → Result BuildError Entry) (u x : String) (e : Entry)
    → f.build_entry ≡ some build
    → build u x ≡ ok e
    → identities_equal d e.name u ≡ true

-- The identities after an addition.
pub record Added (d : Driver) (f : FileDriver) (request : Request) (before after : List Entry)
    : Type 0 where
  pub entry : Entry
  pub is_built : built f request ≡ ok entry
  pub present : has d request.username after ≡ true
  pub replaced : replaces_previous d request ≡ true → has d request.previous_username after ≡ false
  pub nobody_else :
      (j : String)
      → identities_equal d request.username j ≡ false
      → has d j before ≡ false
      → has d j after ≡ false
  pub others_stay :
      (j : String)
      → has d j (others d request.username entry before) ≡ true
      → (replaces_previous d request ≡ true
          → identities_equal d request.previous_username j ≡ false)
      → has d j after ≡ true

built_or :
    (d : Driver) (u : String) (result : Result BuildError Entry)
    → ((e : Entry) → result ≡ ok e → identities_equal d e.name u ≡ true)
    → OnOk
        (λ e. identities_equal d e.name u ≡ true)
        (elim result [
          | ok entry ↦ ok entry
          | err e ↦ elim e [
            | BuildError.external_identity_required ↦ err Code.identity_required
            | BuildError.other ↦ err Code.invalid_identity
          ]
        ])
built_or d u (ok entry) h = h entry refl
built_or d u (err BuildError.external_identity_required) h = tt
built_or d u (err BuildError.other) h = tt

built_named :
    (d : Driver) (f : FileDriver) (request : Request)
    → NamesIt d f
    → OnOk (λ e. identities_equal d e.name request.username ≡ true) (built f request)
unfolding built
built_named d f request n = elim (Option-cases f.build_entry) [
  | inl e ↦ rw e (identical d request.username)
  | inr (build, e) ↦ rw e (
      built_or d request.username _ (λ entry. n build request.username request.external_id entry e))
]

-- The entry built is the one at hand.
with_built :
    (Q : Entry → Type 0) (m : Result Code Entry) → OnOk Q m → OnOk (λ e. Q e × (m ≡ ok e)) m
with_built Q (ok e) h = (h, refl)
with_built Q (err c) h = tt

apart_names :
    (d : Driver) (request : Request) (entry : Entry)
    → replaces_previous d request ≡ true
    → identities_equal d entry.name request.username ≡ true
    → identities_equal d entry.name request.previous_username ≡ false
unfolding replaces_previous
apart_names d request entry e h =
    let apart =
      distinct d request.previous_username request.username request.previous_username
        (ground (arith, e)) in
    let self = identical d request.previous_username in
    same_identity d entry.name request.username request.previous_username h
    ∙ ground (arith, apart, self)

added-Added :
    (d : Driver) (f : FileDriver) (request : Request) (entries : List Entry) (entry : Entry)
    → identities_equal d entry.name request.username ≡ true
    → built f request ≡ ok entry
    → Added d f request entries (added d request entries entry).0
unfolding added
added-Added d f request entries entry h b = elim (Bool-cases (replaces_previous d request)) [
  | inl e ↦
      let previous = request.previous_username in
      let kept = without d previous entries in
      rw e (record {
        entry = entry;
        is_built = b;
        present = has-put d request.username entry kept h;
        replaced = λ _.
            has-put_other d request.username previous entry kept (apart_names d request entry e h)
              (has-without d previous previous entries ∙ rw (identical d previous) (ground arith));
        nobody_else = λ j a n.
            has-put_other d request.username j entry kept
              (same_identity d entry.name request.username j h ∙ a)
              (has-without d j previous entries ∙ rw n refl);
        others_stay = λ j o a.
            has-put-others d request.username j entry kept
              (has-others-without d request.username previous j entry entries o (a e));
      })
  | inr e ↦ rw e (record {
    entry = entry;
    is_built = b;
    present = has-put d request.username entry entries h;
    replaced = λ t. absurd (contradicts (sym t ∙ e));
    nobody_else = λ j a n.
        has-put_other d request.username j entry entries
          (same_identity d entry.name request.username j h ∙ a) n;
    others_stay = λ j o a. has-put-others d request.username j entry entries o;
  })
]

pub edit-Added :
    (d : Driver) (f : FileDriver) (request : Request) (entries : List Entry)
    → NamesIt d f
    → request.operation ≡ "add"
    → OnOk (λ r. Added d f request entries r.0) (edit d f request entries)
edit-Added d f request entries n h =
    edit_cases
      (λ entry.
        (identities_equal d entry.name request.username ≡ true) × (built f request ≡ ok entry))
      _ d f request entries (with_built _ (built f request) (built_named d f request n))
      (λ e. absurd (contradicts (sym e ∙ ap (λ (x : String). x == "remove") h)))
      (λ _ entry (h, b). added-Added d f request entries entry h b)
