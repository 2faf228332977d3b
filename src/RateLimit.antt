-- ===== src/RateLimit.antt =====
-- api/ratelimit.go: the sliding-window limiter of requests by client address. A time is a number of
-- clock ticks, and the test `now.Sub(t) < window` is written `now < t + window`.
pub mod Window
mod Tests
use hogs.Prelude.{
  ℕ, ◌+◌, String, Bool, true, false, List, [], ◌∷◌, ◌++◌, Option, none, some, leb, ltb, length,
  keep, if◌then◌else◌,
}
use hogs.Prelude.Dict.{Dict, empty, put}

pub record RateLimiter : Type 0 where
  pub requests : Dict (List ℕ)
  pub limit : ℕ
  pub window : ℕ

-- `NewRateLimiter`
unfoldable pub new_rate_limiter : ℕ → ℕ → RateLimiter
new_rate_limiter limit window = record { requests = empty; limit = limit; window = window }

-- `rl.requests[ip]`, where a missing key reads as the nil slice
abbrev pub recorded : Dict (List ℕ) → String → List ℕ
recorded requests ip = elim (requests ip) [ none ↦ [] | some timestamps ↦ timestamps ]

-- The timestamps that are still inside the window.
abbrev pub valid : ℕ → ℕ → List ℕ → List ℕ
valid window now = keep (λ t. ltb now (t + window))

-- An entry of the map after `Cleanup`: gone if no timestamp of it is valid.
sweep : ℕ → ℕ → Option (List ℕ) → Option (List ℕ)
sweep window now none = none
sweep window now (some timestamps) = elim (valid window now timestamps) [
  | [] ↦ none
  | t ∷ rest ↦ some (t ∷ rest)
]

unfoldable pub cleanup : RateLimiter → ℕ → RateLimiter
unfolding sweep
cleanup rl now = record rl { requests = λ ip. sweep rl.window now (rl.requests ip) }

-- `Middleware`: the limiter after a request, and whether the request was passed on.
unfoldable pub middleware : RateLimiter → String → ℕ → RateLimiter × Bool
middleware rl ip now =
    let current = valid rl.window now (recorded rl.requests ip) in
    if leb rl.limit (length current)
    then (record rl { requests = put ip current rl.requests }, false)
    else (record rl { requests = put ip (current ++ now ∷ []) rl.requests }, true)
