-- ===== src/RateLimit/Window/Reference.antt =====
-- The limiter against one that keeps every passed request.
use hogs.Prelude.{
  ◌∙◌, sym, ap, ℕ, ◌≤◌, String, ◌&&◌, List, [], ◌∷◌, ◌++◌, ◌≡◌, refl, arith, ltb, length,
  if◌then◌else◌, ◌==◌, Bool-cases, inl, inr,
}
use hogs.RateLimit.{RateLimiter, new_rate_limiter, recorded, valid}
use hogs.RateLimit.Window.{
  Event, request, tidy, time, Ordered, step, record_pass, passes, Inv, request_other, request_own,
  step-Inv, new-Inv,
}

-- A limiter that forgets nothing and looks at one address alone.
abbrev decide : String → ℕ → ℕ → List ℕ → Event → List ℕ
decide ip limit window log (tidy now) = log
decide ip limit window log (request from now) =
    if from == ip && ltb (length (valid window now log)) limit then log ++ now ∷ [] else log

pub reference : String → ℕ → ℕ → List ℕ → List Event → List ℕ
reference ip limit window log [] = log
reference ip limit window log (e ∷ es) = reference ip limit window (decide ip limit window log e) es

step-decide :
    (ip : String) (limit window now : ℕ) (rl : RateLimiter) (log : List ℕ) (e : Event)
    → Inv ip limit window now rl log
    → now ≤ time e
    → record_pass (step ip rl e).1 log ≡ decide ip limit window log e
step-decide ip limit window now rl log (tidy now') inv h = refl
step-decide ip limit window now rl log (request from now') inv h = elim (Bool-cases (from == ip)) [
  | inr other ↦ rw ((request_other ip from now' rl other).0, other)
  | inl own ↦
      let stored : List ℕ = recorded rl.requests ip in
      let e : length (valid window now' log) ≡ length (valid rl.window now' stored) =
        inv.remembered now' h ∙ ap (λ w. length (valid w now' stored)) (sym inv.same_window) in
      let l = inv.same_limit in
      elim (request_own ip from now' rl own) [
        | inl (out, same, full) ↦ rw (out, own) (ground arith)
        | inr (out, same, room) ↦ rw (out, own) (ground arith)
      ]
]

passes-reference :
    (ip : String) (limit window now : ℕ) (rl : RateLimiter) (log : List ℕ) (es : List Event)
    → Inv ip limit window now rl log
    → Ordered now es
    → passes ip rl log es ≡ reference ip limit window log es
unfolding passes reference
passes-reference ip limit window now rl log [] inv h = refl
passes-reference ip limit window now rl log (e ∷ es) inv (first, rest) =
    let (rl', passed) = step ip rl e in
    passes-reference ip limit window (time e) rl' (record_pass passed log) es
      (step-Inv ip limit window now rl log e inv first) rest
    ∙ ap (λ l. reference ip limit window l es) (step-decide ip limit window now rl log e inv first)

-- Over any events in the order of their times, a new limiter passes on the same requests of an
-- address as a limiter that keeps every passed request of that address and nothing else: neither
-- the pruning of a request, nor `Cleanup`, nor another address changes a decision.
pub middleware-reference :
    (ip : String) (limit window : ℕ) (es : List Event)
    → Ordered 0 es
    → passes ip (new_rate_limiter limit window) [] es ≡ reference ip limit window [] es
middleware-reference ip limit window es h =
    passes-reference ip limit window 0 (new_rate_limiter limit window) [] es
      (new-Inv ip limit window) h
