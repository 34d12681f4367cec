-- ===== src/Gateway/RateLimit.antt =====
-- backend/src/evagg/gateway/rate_limit.py: the fixed-window limiter. The clock's reading is an
-- argument; `now - window_start >= window_seconds` is read as a sum, since `-` stops at 0 here.
pub mod Window
mod Examples
use evaggregator.Base.{Bool, [], if◌then◌else◌, leb, nat_eq, ℕ, ◌+◌}
use evaggregator.Base.Dict.{Dict, insert, lookup_or}

pub record RateLimiter : Type 0 where
  pub windows : Dict ℕ (ℕ × ℕ)

abbrev pub new_limiter : RateLimiter
new_limiter = record { windows = [] }

-- The count and the start of the window that a call at `now` falls in.
current_window : ℕ → ℕ → ℕ × ℕ → ℕ × ℕ
current_window window_seconds now (count, start) =
    if leb (start + window_seconds) now then (0, now) else (count, start)

unfoldable pub allow : ℕ → ℕ → ℕ → ℕ → RateLimiter → Bool × RateLimiter
unfolding current_window
allow key limit window_seconds now s =
    let (count, start) = current_window window_seconds now (lookup_or key (0, now) s.windows) in
    (leb (count + 1) limit, record s { windows = insert key (count + 1, start) s.windows })
