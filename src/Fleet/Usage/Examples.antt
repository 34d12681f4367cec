-- ===== src/Fleet/Usage/Examples.antt =====
-- Three sessions of one day, two of them of team 4.
use evaggregator.Fleet.Usage.{
  RollupStore, SessionUsageRecord, by_driver, generate_report, query, run_daily_rollup,
}
use evaggregator.Fleet.Usage.Conservation.{report_after_rollup}
use evaggregator.Base.{List, [], none, refl, ℕ, ◌*◌, ◌∷◌, ◌≡◌}
use evaggregator.Base.Int.{pos, ◌+ℤ◌}

abbrev session : ℕ → ℕ → ℕ → SessionUsageRecord
session team driver kwh = record {
  team_id = team;
  driver_id = driver;
  site_id = none;
  timestamp = 86_400_000_007;
  kwh = pos kwh;
  cost_minor_units = pos (kwh * 3);
}

abbrev sessions : List SessionUsageRecord
sessions = session 4 1 10 ∷ session 5 2 20 ∷ session 4 1 7 ∷ []

abbrev no_rollups : RollupStore
no_rollups = record { rollups = []; incomplete_dates = [] }

report_after_rollup_example :
    (generate_report 4 1 1 by_driver (run_daily_rollup sessions 1 (2 ∷ []) no_rollups)).total
    ≡ record { session_count = pos 2; kwh_total = pos 17; cost_total_minor_units = pos 51 }
unfolding query ◌+ℤ◌
report_after_rollup_example =
    report_after_rollup 4 1 by_driver sessions (2 ∷ []) no_rollups refl refl
