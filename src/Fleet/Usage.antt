-- ===== src/Fleet/Usage.antt =====
-- backend/src/evagg/fleet/rollup.py and cost_report.py: the nightly rollup and the cost report
-- that reads it. Instants are ticks of a wall clock, and a date is the day a tick falls in.
pub mod Grouping
pub mod Conservation
mod Examples
use evaggregator.Fleet.Usage.Grouping.{Totals, group_from, sum_totals}
use evaggregator.Base.{
  Bool, KeyEq, List, Option, [], any_by, arith, false, filter_by, if◌then◌else◌, leb, ltb, nat_beq,
  nat_eq, none, some, true, ℕ, ◌&&◌, ◌++◌, ◌/◌, ◌==◌, ◌↔◌, ◌∷◌, ◌≡◌,
}
use evaggregator.Base.Dict.{Dict, values}
use evaggregator.Base.Int.{pos, ℤ}

pub record SessionUsageRecord : Type 0 where
  pub team_id : ℕ
  pub driver_id : ℕ
  pub site_id : Option ℕ
  pub timestamp : ℕ
  pub kwh : ℤ
  pub cost_minor_units : ℤ

pub record DailyUsageRollup : Type 0 where
  pub team_id : ℕ
  pub driver_id : ℕ
  pub site_id : Option ℕ
  pub usage_date : ℕ
  pub totals : Totals

pub record RollupStore : Type 0 where
  pub rollups : List DailyUsageRollup
  pub incomplete_dates : List ℕ

-- microseconds of a day
abbrev pub day_ticks : ℕ
day_ticks = 86_400_000_000

abbrev pub date_of : ℕ → ℕ
date_of timestamp = timestamp / day_ticks

pub save_rollup : DailyUsageRollup → RollupStore → RollupStore
save_rollup r s = record s { rollups = s.rollups ++ r ∷ [] }

pub mark_incomplete : ℕ → RollupStore → RollupStore
mark_incomplete d s = record s { incomplete_dates = d ∷ s.incomplete_dates }

abbrev pub in_range : ℕ → ℕ → ℕ → Bool
in_range date_from date_to d = leb date_from d && leb d date_to

pub query : ℕ → ℕ → ℕ → RollupStore → List DailyUsageRollup
query team date_from date_to s =
    filter_by (λ r. (r.team_id == team) && in_range date_from date_to r.usage_date) s.rollups

-- (team, driver, site), as the dict's key
abbrev pub UsageKey : Type 0
UsageKey = ℕ × ℕ × Option ℕ

abbrev pub site_beq : Option ℕ → Option ℕ → Bool
site_beq none none = true
site_beq (some a) (some b) = nat_beq a b
site_beq _ _ = false

abbrev pub usage_key_beq : UsageKey → UsageKey → Bool
usage_key_beq (t, d, s) (t', d', s') = nat_beq t t' && (nat_beq d d' && site_beq s s')

site_beq_iff : (s t : Option ℕ) → (site_beq s t ≡ true) ↔ (s ≡ t)
site_beq_iff none none = ground arith
site_beq_iff (some a) (some b) = ground arith
site_beq_iff _ _ = ground arith

pub usage_key_beq_iff : (p q : UsageKey) → (usage_key_beq p q ≡ true) ↔ (p ≡ q)
usage_key_beq_iff (t, d, s) (t', d', s') = ground (arith, site_beq_iff s s')

instance abbrev pub usage_key_eq : KeyEq UsageKey
usage_key_eq = record { agree = usage_key_beq; agree_iff = usage_key_beq_iff }

abbrev pub session_key : SessionUsageRecord → UsageKey
session_key s = (s.team_id, s.driver_id, s.site_id)

abbrev pub session_totals : SessionUsageRecord → Totals
session_totals s = record {
  session_count = pos 1;
  kwh_total = s.kwh;
  cost_total_minor_units = s.cost_minor_units;
}

abbrev pub to_rollup : ℕ → UsageKey × Totals → DailyUsageRollup
to_rollup date ((team, driver, site), agg) = record {
  team_id = team;
  driver_id = driver;
  site_id = site;
  usage_date = date;
  totals = agg;
}

pub save_all : ℕ → Dict UsageKey Totals → RollupStore → RollupStore
unfolding save_rollup
save_all date [] s = s
save_all date (g ∷ gs) s = save_all date gs (save_rollup (to_rollup date g) s)

-- `run_daily_rollup`; a missing or empty `failing_dates` is the empty list
pub run_daily_rollup : List SessionUsageRecord → ℕ → List ℕ → RollupStore → RollupStore
unfolding mark_incomplete save_all
run_daily_rollup sessions target_date failing_dates s =
    if any_by (λ d. d == target_date) failing_dates
    then mark_incomplete target_date s
    else save_all target_date
        (group_from session_key session_totals
          (filter_by (λ x. date_of x.timestamp == target_date) sessions) [])
        s

pub data GroupBy : Type 0 where
  by_driver by_site : GroupBy

-- `_NO_SITE_KEY` is the nil UUID, number 0.
abbrev pub no_site_key : ℕ
no_site_key = 0

abbrev pub report_key : GroupBy → DailyUsageRollup → ℕ
report_key by_driver r = r.driver_id
report_key by_site r = elim r.site_id [ none ↦ no_site_key | some site ↦ site ]

pub record CostReport : Type 0 where
  pub group_by : GroupBy
  pub rows : Dict ℕ Totals
  pub total : Totals
  pub incomplete : List ℕ

-- `sorted` of the set of incomplete dates in the range: each date once, in order.
insert_date : ℕ → List ℕ → List ℕ
insert_date d [] = d ∷ []
insert_date d (e ∷ es) =
    if ltb d e then d ∷ e ∷ es else if d == e then e ∷ es else e ∷ insert_date d es

sorted_dates : List ℕ → List ℕ
unfolding insert_date
sorted_dates [] = []
sorted_dates (d ∷ ds) = insert_date d (sorted_dates ds)

pub incomplete_dates_in_range : ℕ → ℕ → RollupStore → List ℕ
unfolding sorted_dates
incomplete_dates_in_range date_from date_to s =
    sorted_dates (filter_by (in_range date_from date_to) s.incomplete_dates)

pub generate_report : ℕ → ℕ → ℕ → GroupBy → RollupStore → CostReport
unfolding query
generate_report team date_from date_to group s =
    let rows =
      group_from (report_key group) (λ (r : DailyUsageRollup). r.totals)
        (query team date_from date_to s) [] in
    record {
      group_by = group;
      rows = rows;
      total = sum_totals (values rows);
      incomplete = incomplete_dates_in_range date_from date_to s;
    }
