-- ===== src/Carbon/Provider.antt =====
-- backend/src/evagg/carbon/provider.py, ElectricityMapsClient: a request that is retried. The answer of
-- the HTTP client to each attempt is an argument, `none` for the errors that the loop catches; the
-- time slept is counted in the base of the backoff.
pub mod Retries
mod Examples
use evaggregator.Base.{List, Option, Result, [], err, none, ok, some, suc, zero, ℕ, ◌*◌, ◌++◌, ◌∷◌}

pub data CarbonProviderError : Type 0 where
  attempts_exhausted : CarbonProviderError

abbrev pub power : ℕ → ℕ → ℕ
power b zero = 1
power b (suc n) = b * power b n

-- What the loop returns or raises, how many requests it made, and what it slept in between.
pub record Fetched : Type 0 where
  pub outcome : Result CarbonProviderError ℕ
  pub requests : ℕ
  pub sleeps : List ℕ

abbrev pub one_more : List ℕ → Fetched → Fetched
one_more slept f = record f { requests = suc f.requests; sleeps = slept ++ f.sleeps }

-- Slept after every failed attempt but the last: `left` attempts are left after this one.
abbrev pub backoff : ℕ → ℕ → ℕ → List ℕ
backoff base attempt zero = []
backoff base attempt (suc left) = base * power 2 attempt ∷ []

-- The loop from an attempt on, with the attempts that are left.
unfoldable pub attempts_from : (ℕ → Option ℕ) → ℕ → ℕ → ℕ → Fetched
attempts_from answer base attempt zero = record {
  outcome = err attempts_exhausted;
  requests = 0;
  sleeps = [];
}
attempts_from answer base attempt (suc left) =
    let rest = attempts_from answer base (suc attempt) left in
    elim (answer attempt) [
      | some value ↦ record { outcome = ok value; requests = 1; sleeps = [] }
      | none ↦ one_more (backoff base attempt left) rest
    ]

unfoldable pub fetch_intensity : (ℕ → Option ℕ) → ℕ → ℕ → Fetched
fetch_intensity answer base max_attempts = attempts_from answer base 0 max_attempts
