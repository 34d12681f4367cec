-- ===== src/Fleet/Usage/Conservation.antt =====
-- No usage is lost or counted twice on the way from the sessions to the cost report.
use mathlib.Core.List.{append-nil, append_assoc}
use evaggregator.Fleet.Usage.{
  DailyUsageRollup, GroupBy, RollupStore, SessionUsageRecord, UsageKey, date_of, generate_report,
  in_range, query, report_key, run_daily_rollup, save_all, save_rollup, session_key, session_totals,
  to_rollup, usage_key_eq,
}
use evaggregator.Fleet.Usage.Grouping.{
  Totals, group_from, sum_totals, sum_totals-group_from, sum_where, sum_where-group_from,
  zero-add_totals,
}
use evaggregator.Base.{
  Bool, List, [], any_by, ap, arith, false, filter_by, filter_by-append, map, nat_eq, refl, sym, ℕ,
  ◌&&◌, ◌++◌, ◌==◌, ◌∙◌, ◌∷◌, ◌≡◌,
}
use evaggregator.Base.Dict.{Dict}

abbrev pub rollup_totals : DailyUsageRollup → Totals
rollup_totals r = r.totals

-- The report's grand total is the sum of the rollups it was asked for, however they are grouped.
pub report_total :
    (team date_from date_to : ℕ) (group : GroupBy) (s : RollupStore)
    → (generate_report team date_from date_to group s).total
      ≡ sum_totals (map rollup_totals (query team date_from date_to s))
unfolding generate_report
report_total team date_from date_to group s =
    sum_totals-group_from (report_key group) rollup_totals (query team date_from date_to s) []
    ∙ zero-add_totals _

rollups-save_all :
    (date : ℕ) (gs : Dict UsageKey Totals) (s : RollupStore)
    → (save_all date gs s).rollups ≡ s.rollups ++ map (to_rollup date) gs
unfolding save_all save_rollup
rollups-save_all date [] s = sym (append-nil s.rollups)
rollups-save_all date (g ∷ gs) s =
    rollups-save_all date gs (save_rollup (to_rollup date g) s) ∙ append_assoc s.rollups _ _

abbrev of_team : ℕ → UsageKey → Bool
of_team team k = k.0 == team

abbrev asked : ℕ → ℕ → DailyUsageRollup → Bool
asked team date r = (r.team_id == team) && in_range date date r.usage_date

asked-to_rollup :
    (team date : ℕ) (g : UsageKey × Totals) → asked team date (to_rollup date g) ≡ of_team team g.0
asked-to_rollup team date ((t, d, s), agg) = ground arith

sum-asked :
    (team date : ℕ) (gs : Dict UsageKey Totals)
    → sum_totals (map rollup_totals (filter_by (asked team date) (map (to_rollup date) gs)))
      ≡ sum_where (of_team team) gs
sum-asked team date [] = refl
sum-asked team date (((t, d, s), agg) ∷ gs) = ground (arith, sum-asked team date gs)

-- The sessions of a team on a day.
abbrev pub team_day : ℕ → ℕ → List SessionUsageRecord → List SessionUsageRecord
team_day team date sessions =
    filter_by (λ x. of_team team (session_key x))
      (filter_by (λ x. date_of x.timestamp == date) sessions)

query-run :
    (team date : ℕ) (sessions : List SessionUsageRecord) (failing : List ℕ) (s : RollupStore)
    → any_by (λ d. d == date) failing ≡ false
    → query team date date s ≡ []
    → query team date date (run_daily_rollup sessions date failing s)
      ≡ filter_by (asked team date) (
          map (to_rollup date) (
            group_from session_key session_totals
              (filter_by (λ x. date_of x.timestamp == date) sessions)
              []))
unfolding run_daily_rollup query
query-run team date sessions failing s works fresh =
    let todays = filter_by (λ (x : SessionUsageRecord). date_of x.timestamp == date) sessions in
    let gs = group_from session_key session_totals todays [] in
    rw works (
      ap (filter_by (asked team date)) (rollups-save_all date gs s)
      ∙ filter_by-append (asked team date) s.rollups (map (to_rollup date) gs)
      ∙ ap (λ r. r ++ filter_by (asked team date) (map (to_rollup date) gs)) fresh)

-- The rollup of a day, if its aggregation does not fail and nothing is stored for the team and day
-- yet, makes the team's report for that day add up to exactly the team's sessions of that day:
-- number of sessions, energy and cost, grouped by driver or by site.
pub report_after_rollup :
    (team date : ℕ) (group : GroupBy) (sessions : List SessionUsageRecord) (failing : List ℕ)
    (s : RollupStore)
    → any_by (λ d. d == date) failing ≡ false
    → query team date date s ≡ []
    → (generate_report team date date group (run_daily_rollup sessions date failing s)).total
      ≡ sum_totals (map session_totals (team_day team date sessions))
report_after_rollup team date group sessions failing s works fresh =
    let todays = filter_by (λ (x : SessionUsageRecord). date_of x.timestamp == date) sessions in
    let gs = group_from session_key session_totals todays [] in
    report_total team date date group (run_daily_rollup sessions date failing s)
    ∙ ap (λ q. sum_totals (map rollup_totals q))
        (query-run team date sessions failing s works fresh)
    ∙ sum-asked team date gs
    ∙ sum_where-group_from (of_team team) session_key session_totals todays []
    ∙ zero-add_totals _
