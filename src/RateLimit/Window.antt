-- ===== src/RateLimit/Window.antt =====
-- The bound that the limiter keeps: in every window of time at most `limit` requests of an address
-- are passed on, whatever other addresses do and however often `Cleanup` runs between.
pub mod Reference
use hogs.Prelude.{
  ◌⊎◌, ◌∙◌, sym, ap, ℕ, ◌+◌, ◌≤◌, ◌<◌, String, true, false, ◌&&◌, List, [], ◌∷◌, ◌++◌, Option, none,
  some, ◌≡◌, refl, arith, leb, ltb, length, keep, if◌then◌else◌, ◌==◌, eq_iff, length-append,
  keep-append, Bool-cases, inl, inr,
}
use hogs.RateLimit.{RateLimiter, new_rate_limiter, recorded, valid, sweep, cleanup, middleware}

-- What happens to the limiter: a request of an address, or the periodic cleanup, at a time.
pub data Event : Type 0 where
  request : String → ℕ → Event
  tidy : ℕ → Event

abbrev pub time : Event → ℕ
time (request ip now) = now
time (tidy now) = now

-- No event is earlier than the one before it.
abbrev pub Ordered : ℕ → List Event → Type 0
Ordered since [] = Unit {0}
Ordered since (e ∷ es) = (since ≤ time e) × Ordered (time e) es

-- The limiter after an event, and the time at which `ip` had a request passed on, if it had.
abbrev pub step : String → RateLimiter → Event → RateLimiter × Option ℕ
step ip rl (request from now) =
    let (rl', passed) = middleware rl from now in
    (rl', if passed && from == ip then some now else none)
step ip rl (tidy now) = (cleanup rl now, none)

abbrev pub record_pass : Option ℕ → List ℕ → List ℕ
record_pass none log = log
record_pass (some now) log = log ++ now ∷ []

-- The times at which requests of `ip` were passed on, behind those already logged.
unfoldable pub passes : String → RateLimiter → List ℕ → List Event → List ℕ
passes ip rl log [] = log
passes ip rl log (e ∷ es) =
    let (rl', passed) = step ip rl e in passes ip rl' (record_pass passed log) es

-- The passed requests whose window holds the instant `x`.
abbrev pub within : ℕ → ℕ → List ℕ → ℕ
within window x log = length (keep (λ t. leb t x && ltb x (t + window)) log)

-- Those whose window has not ended before `x`.
abbrev alive : ℕ → ℕ → List ℕ → ℕ
alive window x log = length (valid window x log)

within-le-alive : (window x : ℕ) (log : List ℕ) → within window x log ≤ alive window x log
within-le-alive window x [] = omega arith
within-le-alive window x (t ∷ log) = ground (arith, within-le-alive window x log)

alive_mono : (window : ℕ) {x y : ℕ} (log : List ℕ) → x ≤ y → alive window y log ≤ alive window x log
alive_mono window [] h = omega arith
alive_mono window {x} {y} (t ∷ log) h = ground (arith, alive_mono window {x = x} {y = y} log h)

-- What was dropped at `x` would be dropped at any later time.
alive-valid :
    (window : ℕ) {x y : ℕ} (log : List ℕ)
    → x ≤ y
    → alive window y (valid window x log) ≡ alive window y log
alive-valid window [] h = refl
alive-valid window {x} {y} (t ∷ log) h = ground (arith, alive-valid window {x = x} {y = y} log h)

alive-concat :
    (window x t : ℕ) (log : List ℕ)
    → alive window x (log ++ t ∷ []) ≡ alive window x log + alive window x (t ∷ [])
alive-concat window x t log =
    rw (keep-append (λ t. ltb x (t + window)) log (t ∷ []))
      (length-append (valid window x log) (valid window x (t ∷ [])))

within-concat :
    (window x t : ℕ) (log : List ℕ)
    → within window x (log ++ t ∷ []) ≡ within window x log + within window x (t ∷ [])
within-concat window x t log =
    rw (keep-append (λ t. leb t x && ltb x (t + window)) log (t ∷ []))
      (length-append (keep (λ t. leb t x && ltb x (t + window)) log) _)

-- What links the limiter, at a time, to the requests of `ip` that it has passed on.
record Inv (ip : String) (limit window : ℕ) (now : ℕ) (rl : RateLimiter) (log : List ℕ)
    : Type 0 where
  same_limit : rl.limit ≡ limit
  same_window : rl.window ≡ window
  remembered : (y : ℕ) → now ≤ y → alive window y log ≡ alive window y (recorded rl.requests ip)
  bounded : (x : ℕ) → within window x log ≤ limit

recorded-cleanup :
    (rl : RateLimiter) (now : ℕ) (ip : String)
    → recorded (cleanup rl now).requests ip ≡ valid rl.window now (recorded rl.requests ip)
unfolding cleanup sweep
recorded-cleanup rl now ip = ground arith

module _ {ip : String} {limit window now now' : ℕ} {rl rl' : RateLimiter} {log : List ℕ} where
  -- The map entry of `ip` is unchanged, or lost what is no longer valid.
  Inv-forget :
      Inv ip limit window now rl log
      → now ≤ now'
      → rl'.limit ≡ rl.limit
      → rl'.window ≡ rl.window
      → (recorded rl'.requests ip ≡ recorded rl.requests ip)
        ⊎ (recorded rl'.requests ip ≡ valid window now' (recorded rl.requests ip))
      → Inv ip limit window now' rl' log
  Inv-forget inv h l w (inl e) = record {
    same_limit = l ∙ inv.same_limit;
    same_window = w ∙ inv.same_window;
    remembered = λ y k. rw e (inv.remembered y (omega arith));
    bounded = inv.bounded;
  }
  Inv-forget inv h l w (inr e) = record {
    same_limit = l ∙ inv.same_limit;
    same_window = w ∙ inv.same_window;
    remembered = λ y k. rw e (
        inv.remembered y (omega arith)
        ∙ sym (alive-valid window {x = now'} {y = y} (recorded rl.requests ip) k));
    bounded = inv.bounded;
  }

  -- A request of `ip` was passed on, with less than `limit` valid ones before it.
  Inv-pass :
      Inv ip limit window now rl log
      → now ≤ now'
      → rl'.limit ≡ rl.limit
      → rl'.window ≡ rl.window
      → alive window now' (recorded rl.requests ip) < limit
      → recorded rl'.requests ip ≡ valid window now' (recorded rl.requests ip) ++ now' ∷ []
      → Inv ip limit window now' rl' (log ++ now' ∷ [])
  Inv-pass inv h l w room e = record {
    same_limit = l ∙ inv.same_limit;
    same_window = w ∙ inv.same_window;
    remembered = λ y k. rw e (
        omega (
          arith,
          alive-concat window y now' log,
          alive-concat window y now' (valid window now' (recorded rl.requests ip)),
          inv.remembered y (omega arith),
          alive-valid window {x = now'} {y = y} (recorded rl.requests ip) k,
        ));
    bounded = λ x. elim (Bool-cases (leb now' x)) [
      | inl later ↦ ground (
        arith,
        within-concat window x now' log,
        within-le-alive window x log,
        inv.remembered x,
        alive_mono window {x = now'} {y = x} (recorded rl.requests ip),
      )
      | inr earlier ↦ ground (arith, within-concat window x now' log, inv.bounded x)
    ];
  }

middleware_config :
    (rl : RateLimiter) (from : String) (now : ℕ)
    → ((middleware rl from now).0.limit ≡ rl.limit)
      × ((middleware rl from now).0.window ≡ rl.window)
unfolding middleware
middleware_config rl from now = ground arith

-- A request of another address: nothing of `ip` changes.
request_other :
    (ip from : String) (now : ℕ) (rl : RateLimiter)
    → (from == ip) ≡ false
    → ((step ip rl (request from now)).1 ≡ none)
      × (recorded (middleware rl from now).0.requests ip ≡ recorded rl.requests ip)
unfolding middleware
request_other ip from now rl h = ground arith

-- A request of `ip`: refused with `limit` valid ones, or passed on and remembered.
request_own :
    (ip from : String) (now : ℕ) (rl : RateLimiter)
    → (from == ip) ≡ true
    → let kept = valid rl.window now (recorded rl.requests ip) in
      (((step ip rl (request from now)).1 ≡ none)
        × (recorded (middleware rl from now).0.requests ip ≡ kept)
        × (rl.limit ≤ length kept))
      ⊎ (((step ip rl (request from now)).1 ≡ some now)
          × (recorded (middleware rl from now).0.requests ip ≡ kept ++ now ∷ [])
          × (length kept < rl.limit))
unfolding middleware
request_own ip from now rl h =
    elim (Bool-cases (leb rl.limit (length (valid rl.window now (recorded rl.requests ip))))) [
      | inl full ↦
          inl (ground (arith, eq_iff from ip), ground (arith, eq_iff from ip), ground arith)
      | inr room ↦ inr (
        ground (arith, eq_iff from ip),
        ground (arith, eq_iff from ip),
        ground (arith, eq_iff from ip),
      )
    ]

-- Each event keeps the invariant.
step-Inv :
    (ip : String) (limit window now : ℕ) (rl : RateLimiter) (log : List ℕ) (e : Event)
    → Inv ip limit window now rl log
    → now ≤ time e
    → Inv ip limit window (time e) (step ip rl e).0 (record_pass (step ip rl e).1 log)
step-Inv ip limit window now rl log (tidy now') inv h =
    Inv-forget inv h (unfold cleanup in refl) (unfold cleanup in refl)
      (inr (rw (← inv.same_window) (recorded-cleanup rl now' ip)))
step-Inv ip limit window now rl log (request from now') inv h =
    let (l, w) = middleware_config rl from now' in
    elim (Bool-cases (from == ip)) [
      | inr other ↦
          let (out, same) = request_other ip from now' rl other in
          rw out (Inv-forget inv h l w (inl same))
      | inl own ↦ elim (request_own ip from now' rl own) [
        | inl (out, same, full) ↦ rw out (Inv-forget inv h l w (inr (rw (← inv.same_window) same)))
        | inr (out, same, room) ↦ rw out (
            Inv-pass inv h l w (rw (← inv.same_window, ← inv.same_limit) room)
              (rw (← inv.same_window) same))
      ]
    ]

passes-bounded :
    (ip : String) (limit window now : ℕ) (rl : RateLimiter) (log : List ℕ) (es : List Event)
    → Inv ip limit window now rl log
    → Ordered now es
    → (x : ℕ) → within window x (passes ip rl log es) ≤ limit
unfolding passes
passes-bounded ip limit window now rl log [] inv h x = inv.bounded x
passes-bounded ip limit window now rl log (e ∷ es) inv (first, rest) x =
    let (rl', passed) = step ip rl e in
    passes-bounded ip limit window (time e) rl' (record_pass passed log) es
      (step-Inv ip limit window now rl log e inv first) rest x

new-Inv :
    (ip : String) (limit window : ℕ) → Inv ip limit window 0 (new_rate_limiter limit window) []
unfolding new_rate_limiter
new-Inv ip limit window = record {
  same_limit = refl;
  same_window = refl;
  remembered = λ y k. refl;
  bounded = λ x. omega arith;
}

-- Of the requests of an address that a new limiter passes on, over any events in the order of
-- their times, at most `limit` have a window `[t, t + window)` that holds a given instant `x`.
pub middleware-bounded :
    (ip : String) (limit window : ℕ) (es : List Event)
    → Ordered 0 es
    → (x : ℕ) → within window x (passes ip (new_rate_limiter limit window) [] es) ≤ limit
middleware-bounded ip limit window es h =
    passes-bounded ip limit window 0 (new_rate_limiter limit window) [] es (new-Inv ip limit window)
      h
