-- ===== src/Ocpp/Meters.antt =====
-- backend/src/evagg/ocpp_gateway/meter_values.py and live_meter_readings.py: the write buffer of the
-- meter values and the cache of the latest ones. A reading's value and unit are only carried.
pub mod Buffering
pub mod Newest
mod Examples
use evaggregator.Base.{
  Bool, List, Option, [], false, if◌then◌else◌, leb, length, nat_eq, none, some, true, ℕ, ◌++◌, ◌+◌,
  ◌||◌, ◌∷◌,
}
use evaggregator.Base.Dict.{Dict, insert, lookup, lookup_or}

pub record MeterReading : Type 0 where
  pub tenant_id : ℕ
  pub transaction_id : ℕ
  pub charger_id : ℕ
  pub ts : ℕ
  pub measurand : ℕ
  pub value : ℕ
  pub unit : ℕ

-- The sink's batches, and the rows that wait.
pub record MeterValueBuffer : Type 0 where
  pub max_batch_size : ℕ
  pub flush_interval : ℕ
  pub batches : List (List MeterReading)
  pub buffer : List MeterReading
  pub buffer_opened_at : Option ℕ

abbrev pub all_rows : List (List MeterReading) → List MeterReading
all_rows [] = []
all_rows (b ∷ bs) = b ++ all_rows bs

pub all_written_rows : MeterValueBuffer → List MeterReading
all_written_rows b = all_rows b.batches

pub pending_count : MeterValueBuffer → ℕ
pending_count b = length b.buffer

abbrev pub is_empty : List MeterReading → Bool
is_empty [] = true
is_empty (r ∷ rs) = false

pub flush : MeterValueBuffer → MeterValueBuffer
flush b =
    if is_empty b.buffer
    then b
    else record b { batches = b.batches ++ b.buffer ∷ []; buffer = []; buffer_opened_at = none }

-- `self._clock() - self._buffer_opened_at >= self._flush_interval_seconds`
abbrev pub is_overdue : Option ℕ → ℕ → ℕ → Bool
is_overdue none interval now = false
is_overdue (some opened) interval now = leb (opened + interval) now

pub should_flush : ℕ → MeterValueBuffer → Bool
should_flush now b =
    leb b.max_batch_size (length b.buffer) || is_overdue b.buffer_opened_at b.flush_interval now

-- The row is put into the buffer, whose opening time is read from the clock if it was empty.
pub enqueue : MeterReading → ℕ → MeterValueBuffer → MeterValueBuffer
enqueue r now b = record b {
  buffer = b.buffer ++ r ∷ [];
  buffer_opened_at = if is_empty b.buffer then some now else b.buffer_opened_at;
}

-- `add`; the clock is read once to open the buffer and once for the test.
pub add : MeterReading → ℕ → ℕ → MeterValueBuffer → MeterValueBuffer
unfolding enqueue should_flush flush
add r opened checked b =
    let b' = enqueue r opened b in if should_flush checked b' then flush b' else b'

-- transaction id -> measurand -> reading
abbrev pub LatestReadings : Type 0
LatestReadings = Dict ℕ (Dict ℕ MeterReading)

-- `if existing is None or reading.ts >= existing.ts: by_measurand[reading.measurand] = reading`
abbrev pub keep_newest : MeterReading → Dict ℕ MeterReading → Dict ℕ MeterReading
keep_newest r d = elim (lookup r.measurand d) [
  | none ↦ insert r.measurand r d
  | some existing ↦ if leb existing.ts r.ts then insert r.measurand r d else d
]

pub update : MeterReading → LatestReadings → LatestReadings
update r s = insert r.transaction_id (keep_newest r (lookup_or r.transaction_id [] s)) s

pub get_latest : ℕ → ℕ → LatestReadings → Option MeterReading
get_latest transaction measurand s = lookup measurand (lookup_or transaction [] s)
