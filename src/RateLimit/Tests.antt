-- ===== src/RateLimit/Tests.antt =====
-- Runs of the limiter: two requests in a window of ten ticks.
use hogs.Prelude.{◌≤◌, List, [], ◌∷◌, ◌≡◌, refl, arith}
use hogs.RateLimit.{new_rate_limiter, cleanup, middleware}
use hogs.RateLimit.Window.{Event, request, tidy, Ordered, within, passes, middleware-bounded}
use hogs.RateLimit.Window.Reference.{reference, middleware-reference}

abbrev busy : List Event
busy =
    request "a" 1
    ∷ request "a" 2
    ∷ request "b" 2
    ∷ request "a" 3
    ∷ tidy 9
    ∷ request "a" 10
    ∷ request "a" 11
    ∷ request "a" 12
    ∷ []

busy-Ordered : Ordered 0 busy
busy-Ordered = omega arith

busy_trace : passes "a" (new_rate_limiter 2 10) [] busy ≡ 1 ∷ 2 ∷ 11 ∷ 12 ∷ []
unfolding passes new_rate_limiter cleanup middleware
busy_trace = refl

middleware-bounded_example : within 10 11 (passes "a" (new_rate_limiter 2 10) [] busy) ≤ 2
middleware-bounded_example = middleware-bounded "a" 2 10 busy busy-Ordered 11

middleware-reference_example :
    passes "a" (new_rate_limiter 2 10) [] busy ≡ reference "a" 2 10 [] busy
middleware-reference_example = middleware-reference "a" 2 10 busy busy-Ordered
