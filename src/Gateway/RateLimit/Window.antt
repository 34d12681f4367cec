-- ===== src/Gateway/RateLimit/Window.antt =====
-- How many calls one window lets through, and that keys do not disturb one another.
use Prim.Native.Nat.{min}
use evaggregator.Base.{
  All, List, [], arith, if◌then◌else◌, leb, length, nat_eq, some, ℕ, ◌+◌, ◌-◌, ◌<◌, ◌∷◌, ◌≡◌, ◌≢◌,
}
use evaggregator.Base.Dict.{lookup, lookup-insert, lookup-insert_self, lookup_or}
use evaggregator.Gateway.RateLimit.{RateLimiter, allow}

module _ (key limit window : ℕ) where
  -- The number of calls allowed among calls of one key at the given instants.
  abbrev pub allowed_count : List ℕ → RateLimiter → ℕ
  allowed_count [] s = 0
  allowed_count (now ∷ rest) s =
      let (granted, s') = allow key limit window now s in
      (if granted then 1 else 0) + allowed_count rest s'

  -- A call inside the window counts up and leaves its start.
  allow_inside :
      (now count start : ℕ) (s : RateLimiter)
      → lookup key s.windows ≡ some (count, start)
      → now < start + window
      → ((allow key limit window now s).0 ≡ leb (count + 1) limit)
        × (lookup key (allow key limit window now s).1.windows ≡ some (count + 1, start))
  unfolding allow
  allow_inside now count start s h inside =
      rw (h, lookup_or) (ground (arith, lookup-insert_self key (count + 1, start) s.windows))

  -- While the window of a key is open, the calls allowed are exactly the first ones, up to what
  -- the limit leaves: of the further calls, the smaller of their number and the rest of the limit.
  pub allowed_in_window :
      (times : List ℕ) (count start : ℕ) (s : RateLimiter)
      → lookup key s.windows ≡ some (count, start)
      → All (λ now. now < start + window) times
      → allowed_count times s ≡ min (length times) (limit - count)
  allowed_in_window [] count start s h inside = omega arith
  allowed_in_window (now ∷ rest) count start s h inside =
      let step = allow_inside now count start s h inside.0 in
      let ih =
        allowed_in_window rest (count + 1) start (allow key limit window now s).1 step.1 inside.1 in
      ground (arith, step.0, ih)

-- A call of one key leaves every other key's window as it was.
pub allow_other_key :
    (key other limit window now : ℕ) (s : RateLimiter)
    → key ≢ other
    → lookup other (allow key limit window now s).1.windows ≡ lookup other s.windows
unfolding allow
allow_other_key key other limit window now s ne = simp lookup-insert (ground arith)
