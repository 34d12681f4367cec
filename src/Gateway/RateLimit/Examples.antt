-- ===== src/Gateway/RateLimit/Examples.antt =====
-- The limiter at a concrete run: five calls in one window, the limit being three.
use evaggregator.Base.{[], arith, refl, ◌∷◌, ◌≡◌}
use evaggregator.Gateway.RateLimit.{RateLimiter, allow, new_limiter}
use evaggregator.Gateway.RateLimit.Window.{allowed_count, allowed_in_window}

abbrev opened : RateLimiter
unfolding allow
opened = (allow 5 3 60 1000 new_limiter).1

allowed_in_window_example : allowed_count 5 3 60 (1001 ∷ 1002 ∷ 1059 ∷ 1003 ∷ []) opened ≡ 2
unfolding allow
allowed_in_window_example =
    allowed_in_window 5 3 60 (1001 ∷ 1002 ∷ 1059 ∷ 1003 ∷ []) 1 1000 opened refl (omega arith)
