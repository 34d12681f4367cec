-- ===== src/Ocpp/Meters/Newest.antt =====
-- The cache of the latest readings holds a newest one, in whatever order they arrive.
use evaggregator.Ocpp.Meters.{LatestReadings, MeterReading, get_latest, keep_newest, update}
use evaggregator.Base.{
  Bool-cases, List, Option, Option-cases, [], ap, arith, if◌then◌else◌, inl, inr, leb, nat_eq, none,
  some, ℕ, ◌&&◌, ◌++◌, ◌==◌, ◌∙◌, ◌∷◌, ◌≡◌, ◌≤◌,
}
use evaggregator.Base.Dict.{Dict, lookup, lookup-insert, lookup_or}

abbrev pub update_all : List MeterReading → LatestReadings → LatestReadings
update_all [] s = s
update_all (r ∷ rs) s = update_all rs (update r s)

-- The cache has a reading for the transaction and measurand that is at least as new as `ts`.
pub record HasSince (transaction measurand ts : ℕ) (s : LatestReadings) : Type 0 where
  pub reading : MeterReading
  pub found : get_latest transaction measurand s ≡ some reading
  pub newer : ts ≤ reading.ts

abbrev pub readings_of : ℕ → LatestReadings → Dict ℕ MeterReading
readings_of transaction s = lookup_or transaction [] s

readings_of-update :
    (r : MeterReading) (transaction : ℕ) (s : LatestReadings)
    → readings_of transaction (update r s) ≡ (
        if r.transaction_id == transaction
        then keep_newest r (readings_of r.transaction_id s)
        else readings_of transaction s)
unfolding update
readings_of-update r transaction s = ground (
  arith,
  lookup-insert r.transaction_id transaction (keep_newest r (readings_of r.transaction_id s)) s,
)

-- The newer of the reading and what was there, and nothing else changes.
lookup-keep_newest :
    (r : MeterReading) (measurand : ℕ) (d : Dict ℕ MeterReading)
    → lookup measurand (keep_newest r d) ≡ (
        if r.measurand == measurand
        then elim (lookup measurand d) [
          | none ↦ some r
          | some existing ↦ if leb existing.ts r.ts then some r else some existing
        ]
        else lookup measurand d)
lookup-keep_newest r measurand d = elim (Option-cases (lookup r.measurand d)) [
  | inl e ↦ ground (arith, lookup-insert r.measurand measurand r d)
  | inr (x, e) ↦ ground (arith, lookup-insert r.measurand measurand r d)
]

-- What the cache holds for a transaction and a measurand after an update.
abbrev newest : MeterReading → Option MeterReading → Option MeterReading
newest r none = some r
newest r (some existing) = if leb existing.ts r.ts then some r else some existing

get_latest-update :
    (r : MeterReading) (transaction measurand : ℕ) (s : LatestReadings)
    → get_latest transaction measurand (update r s) ≡ (
        if (r.transaction_id == transaction) && (r.measurand == measurand)
        then newest r (get_latest transaction measurand s)
        else get_latest transaction measurand s)
unfolding get_latest
get_latest-update r transaction measurand s =
    ap (lookup measurand) (readings_of-update r transaction s) ∙ split
  where
    split :
        lookup measurand (
          if r.transaction_id == transaction
          then keep_newest r (readings_of r.transaction_id s)
          else readings_of transaction s)
        ≡ (if (r.transaction_id == transaction) && (r.measurand == measurand)
            then newest r (get_latest transaction measurand s)
            else get_latest transaction measurand s)
    split = ground (arith, lookup-keep_newest r measurand (readings_of r.transaction_id s))

update-HasSince_self :
    (r : MeterReading) (s : LatestReadings)
    → HasSince r.transaction_id r.measurand r.ts (update r s)
update-HasSince_self r s =
    let a = get_latest-update r r.transaction_id r.measurand s in
    elim (Option-cases (get_latest r.transaction_id r.measurand s)) [
      | inl e ↦ record { reading = r; found = ground (arith, a); newer = omega arith }
      | inr (x, e) ↦ elim (Bool-cases (leb x.ts r.ts)) [
        | inl y ↦ record { reading = r; found = ground (arith, a); newer = omega arith }
        | inr n ↦ record { reading = x; found = ground (arith, a); newer = ground arith }
      ]
    ]

update-HasSince :
    (r : MeterReading) (transaction measurand ts : ℕ) (s : LatestReadings)
    → HasSince transaction measurand ts s
    → HasSince transaction measurand ts (update r s)
update-HasSince r transaction measurand ts s h =
    let a = get_latest-update r transaction measurand s in
    elim (Bool-cases ((r.transaction_id == transaction) && (r.measurand == measurand))) [
      | inr n ↦ record { reading = h.reading; found = ground (arith, a, h.found); newer = h.newer }
      | inl y ↦ elim (Bool-cases (leb h.reading.ts r.ts)) [
        | inl e ↦ record {
          reading = r;
          found = ground (arith, a, h.found);
          newer = ground (arith, h.newer);
        }
        | inr e ↦ record {
          reading = h.reading;
          found = ground (arith, a, h.found);
          newer = h.newer;
        }
      ]
    ]

update_all-HasSince :
    (rs : List MeterReading) (transaction measurand ts : ℕ) (s : LatestReadings)
    → HasSince transaction measurand ts s
    → HasSince transaction measurand ts (update_all rs s)
update_all-HasSince [] transaction measurand ts s h = h
update_all-HasSince (r ∷ rs) transaction measurand ts s h =
    update_all-HasSince rs transaction measurand ts (update r s)
      (update-HasSince r transaction measurand ts s h)

-- After a reading has come, in whatever order others come before and after it, the cache has for
-- its transaction and measurand a reading that is no older.
pub latest_no_older :
    (xs ys : List MeterReading) (r : MeterReading) (s : LatestReadings)
    → HasSince r.transaction_id r.measurand r.ts (update_all (xs ++ (r ∷ ys)) s)
latest_no_older [] ys r s =
    update_all-HasSince ys r.transaction_id r.measurand r.ts (update r s) (update-HasSince_self r s)
latest_no_older (x ∷ xs) ys r s = latest_no_older xs ys r (update x s)
