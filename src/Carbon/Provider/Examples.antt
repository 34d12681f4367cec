-- ===== src/Carbon/Provider/Examples.antt =====
-- A provider that fails twice.
use evaggregator.Carbon.Provider.{fetch_intensity}
use evaggregator.Carbon.Provider.Retries.{fetch-first_success}
use evaggregator.Base.{Option, [], if◌then◌else◌, nat_eq, none, ok, some, ℕ, ◌==◌, ◌∷◌, ◌≡◌, ◌≤◌}

abbrev third_time : ℕ → Option ℕ
third_time attempt = if attempt == 2 then some 310 else none

fetch-first_success_example :
    (fetch_intensity third_time 5 3
      ≡ record { outcome = ok 310; requests = 3; sleeps = 5 ∷ 10 ∷ [] })
    × ((fetch_intensity third_time 5 3).requests ≤ 3)
fetch-first_success_example = fetch-first_success third_time 5 3
