-- ===== src/Access.antt =====
-- Structured server access: the capability names of access/access.go, and the grants of a server
-- with the decision of database/database.go (`EvaluateServerAccess`).
pub mod Rule
mod Tests
use hogs.Prelude.{
  String, Bool, true, false, not, ◌&&◌, ◌||◌, List, [], ◌∷◌, ◌==◌, starts_with, any, if◌then◌else◌,
}
use hogs.Prelude.Text.{equal_fold}
use hogs.Prelude.Fallible.{Result, ok, err, ◌>>=◌}
use Prim.Native.String.{◌++◌}

-- The names of the table `Capabilities`, in its order; labels and descriptions are display text.
abbrev pub names : List String
names =
    "view" ∷ "status" ∷ "start" ∷ "stop" ∷ "restart" ∷ "server.update" ∷ "command" ∷ "console.read"
    ∷ "console.write" ∷ "file.read" ∷ "file.write" ∷ "server.join" ∷ "whitelist.manage"
    ∷ "server.admin" ∷ "backup.list" ∷ "backup.create" ∷ "backup.restore" ∷ "automation.manage"
    ∷ "secret.read" ∷ "access.manage" ∷ []

-- A Go set of strings: is the key in it.
abbrev pub contains : List String → String → Bool
contains set key = any (λ member. member == key) set

pub known : String → Bool
known name = contains names name

-- Does a granted capability cover the requested one.
unfoldable pub grants : String → String → Bool
grants granted requested =
    granted == "*"
    || granted == requested
    || (granted == "command" && starts_with requested "command:")

pub record Grant : Type 0 where
  pub subject_type : String
  pub subject : String
  pub effect : String
  pub capabilities : List String

pub record Decision : Type 0 where
  pub allowed : Bool
  pub governed : Bool
  pub reason : String

-- `matches` of the loop over grants; `groups` is the set built from the user's groups.
unfoldable pub applies : String → List String → Grant → Bool
unfolding equal_fold
applies username groups grant =
    if grant.subject_type == "group"
    then contains groups grant.subject
    else grant.subject_type == "everyone"
      || (grant.subject_type == "authenticated"
          && not (username == "")
          && not (username == "anonymous"))
      || (grant.subject_type == "user" && equal_fold grant.subject username)

abbrev pub matched_by : Grant → String
matched_by grant = grant.subject_type ++ (":" ++ grant.subject)

-- What the loops carry: an early return with the deny, or the grant that last allowed.
pub data Scan : Type 0 where
  denied : String → Scan
  allowed_by : String → Scan

-- The loop over the capabilities of a grant that applies.
scan_capabilities : Grant → String → List String → String → Scan
scan_capabilities grant capability [] by = allowed_by by
scan_capabilities grant capability (granted ∷ rest) by =
    let on = scan_capabilities grant capability rest (matched_by grant) in
    let over = scan_capabilities grant capability rest by in
    if grants granted capability
    then (if grant.effect == "deny" then denied (matched_by grant) else on)
    else over

after : Scan → (String → Scan) → Scan
after (denied by) next = denied by
after (allowed_by by) next = next by

-- The loop over the grants, `continue` where one does not apply.
scan_grants : String → List String → String → List Grant → String → Scan
unfolding scan_capabilities after
scan_grants username groups capability [] by = allowed_by by
scan_grants username groups capability (grant ∷ rest) by =
    after
      (if applies username groups grant
        then scan_capabilities grant capability grant.capabilities by
        else allowed_by by)
      (scan_grants username groups capability rest)

conclude : String → Scan → Decision
conclude capability (denied by) = record {
  allowed = false;
  governed = true;
  reason = "explicit deny from " ++ by;
}
conclude capability (allowed_by by) =
    if not (by == "")
    then record { allowed = true; governed = true; reason = "granted by " ++ by }
    else record {
      allowed = false;
      governed = true;
      reason = "no matching grant for capability " ++ capability;
    }

decide_on : List Grant → String → List String → String → Decision
unfolding scan_grants conclude
decide_on [] username groups capability = record {
  allowed = false;
  governed = false;
  reason = "server has no access grants";
}
decide_on list username groups capability =
    conclude capability (scan_grants username groups capability list "")

-- `EvaluateServerAccess`, over the outcome of `ListServerAccessGrants`.
unfoldable pub evaluate_server_access :
    Result String (List Grant) → String → List String → String → Result String Decision
unfolding decide_on applies grants
evaluate_server_access listed username groups capability = do
  list ← listed
  ok (decide_on list username groups capability)
