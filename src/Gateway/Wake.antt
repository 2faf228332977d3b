-- ===== src/Gateway/Wake.antt =====
-- The state of the gateway under its mutex. A time and a duration are numbers of seconds, a boot
-- duration is a whole number of them; a counter is one that does not wrap around (uint64).
pub mod Samples
pub mod Tasks
use hogs.Prelude.{
  ℕ, ◌+◌, ◌-◌, ◌*◌, ◌/◌, Bool, true, false, not, ◌&&◌, ◌||◌, Option, none, some, List, [], ◌∷◌,
  ◌++◌, String, ltb, leb, eqb, length, if◌then◌else◌,
}

pub data State : Type 0 where
  stopped starting ready failed : State

pub record Settings : Type 0 where
  pub wake_cooldown : ℕ
  pub default_boot : ℕ

pub record Gateway : Type 0 where
  pub state : State
  pub boot_started_at : Option ℕ
  pub last_wake_at : Option ℕ
  pub last_ready_at : Option ℕ
  pub last_error : String
  pub boot_durations : List ℕ
  pub wake_triggered : ℕ
  pub start_in_flight : Bool

abbrev pub max_boot_samples : ℕ
max_boot_samples = 20

unfoldable pub drop : ℕ → List ℕ → List ℕ
drop n [] = []
drop n (x ∷ xs) = let rest = drop (n - 1) xs in if eqb n 0 then x ∷ xs else rest

-- The slice of the last `maxBootSamples` durations, of `awaitReadiness` and of `loadState`.
unfoldable pub trim : List ℕ → List ℕ
unfolding drop
trim durations =
    if ltb max_boot_samples (length durations)
    then drop (length durations - max_boot_samples) durations
    else durations

unfoldable pub insert_sorted : ℕ → List ℕ → List ℕ
insert_sorted x [] = x ∷ []
insert_sorted x (y ∷ ys) = let rest = insert_sorted x ys in if leb x y then x ∷ y ∷ ys else y ∷ rest

-- `sort.Float64s`
unfoldable pub sort : List ℕ → List ℕ
unfolding insert_sorted
sort [] = []
sort (x ∷ xs) = insert_sorted x (sort xs)

-- values[index]; none stands for the panic of an index out of range.
unfoldable pub get_elem? : List ℕ → ℕ → Option ℕ
get_elem? [] n = none
get_elem? (x ∷ xs) n = let rest = get_elem? xs (n - 1) in if eqb n 0 then some x else rest

-- `estimatedBootLocked`; ceil(n * 0.75) is (3 * n + 3) / 4.
unfoldable pub estimated_boot_locked : Settings → Gateway → Option ℕ
unfolding sort get_elem?
estimated_boot_locked s g =
    let n = length g.boot_durations in
    if eqb n 0 then some s.default_boot else get_elem? (sort g.boot_durations) ((3 * n + 3) / 4 - 1)

-- Was there a wake less than the cooldown ago?
unfoldable pub is_cooling : Settings → Gateway → ℕ → Bool
is_cooling s g now = elim g.last_wake_at [
  | none ↦ false
  | some wake ↦ ltb (now - wake) s.wake_cooldown
]

-- `requestWake`: the new state, and whether the start task is started.
unfoldable pub request_wake : Settings → ℕ → Gateway → Gateway × Bool
unfolding is_cooling
request_wake s now g =
    let woken : Gateway = record g {
      start_in_flight = true;
      state = State.starting;
      boot_started_at = some now;
      last_wake_at = some now;
      last_error = "";
      wake_triggered = g.wake_triggered + 1;
    } in
    if g.start_in_flight || is_cooling s g now then (g, false) else (woken, true)

-- The outcomes of a start task: the action failed or the backend did not answer in time; it does.
unfoldable pub give_up : String → Gateway → Gateway
give_up message g = record g { state = State.failed; start_in_flight = false; last_error = message }

unfoldable pub with_sample : ℕ → Gateway → List ℕ
unfolding trim
with_sample now g = elim g.boot_started_at [
  | none ↦ g.boot_durations
  | some started ↦
      if ltb started now then trim (g.boot_durations ++ (now - started) ∷ []) else g.boot_durations
]

unfoldable pub become_ready : ℕ → Gateway → Gateway
unfolding with_sample
become_ready now g = record g {
  boot_durations = with_sample now g;
  state = State.ready;
  start_in_flight = false;
  last_ready_at = some now;
  last_error = "";
}

-- The starting state of a boot that was not asked for here.
unfoldable pub found_starting : ℕ → Gateway → Gateway
found_starting now g = record g {
  state = State.starting;
  start_in_flight = true;
  boot_started_at = some now;
}

unfoldable pub mark_ready_without_boot : Gateway → Gateway
mark_ready_without_boot g = record g { state = State.ready; last_error = "" }

-- `refreshState`, of whether the backend answers and the service is active: the new state, and
-- whether `awaitReadiness` is started.
unfoldable pub refresh_state : Bool → Bool → ℕ → Gateway → Gateway × Bool
unfolding found_starting mark_ready_without_boot
refresh_state answers active now g =
    if answers
    then (mark_ready_without_boot g, false)
    else if g.start_in_flight
    then (g, false)
    else if active
    then (found_starting now g, true)
    else (record g { state = State.stopped }, false)

unfoldable pub mark_backend_unavailable : Bool → Gateway → Gateway
mark_backend_unavailable active g =
    if g.start_in_flight
    then g
    else record g { state = if active then State.starting else State.stopped }

-- `newMinecraftGateway` with what `loadState` read.
unfoldable pub new_minecraft_gateway : Bool → Bool → ℕ → List ℕ → Option ℕ → Gateway × Bool
unfolding trim found_starting
new_minecraft_gateway answers active now durations last_ready =
    let loaded : Gateway = record {
      state = State.stopped;
      boot_started_at = none;
      last_wake_at = none;
      last_ready_at = last_ready;
      last_error = "";
      boot_durations = trim durations;
      wake_triggered = 0;
      start_in_flight = false;
    } in
    if answers
    then (record loaded { state = State.ready }, false)
    else if active
    then (found_starting now loaded, true)
    else (loaded, false)
