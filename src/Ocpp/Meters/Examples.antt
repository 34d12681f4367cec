-- ===== src/Ocpp/Meters/Examples.antt =====
-- A buffer of two rows, and readings that arrive out of order.
use evaggregator.Ocpp.Meters.{MeterReading, MeterValueBuffer, add, flush}
use evaggregator.Ocpp.Meters.Buffering.{
  Command, IsBounded, add_row, contents, flush_now, run, run-IsBounded, run_keeps_rows,
}
use evaggregator.Base.{List, [], arith, none, refl, ℕ, ◌∷◌, ◌≡◌}

abbrev reading : ℕ → ℕ → MeterReading
reading ts value = record {
  tenant_id = 1;
  transaction_id = 40;
  charger_id = 5;
  ts = ts;
  measurand = 2;
  value = value;
  unit = 3;
}

abbrev buffer : MeterValueBuffer
buffer = record {
  max_batch_size = 2;
  flush_interval = 100;
  batches = [];
  buffer = [];
  buffer_opened_at = none;
}

abbrev commands : List Command
commands =
    add_row (reading 1 10) 5 6
    ∷ add_row (reading 2 20) 7 8
    ∷ add_row (reading 3 30) 9 10
    ∷ flush_now
    ∷ []

run_keeps_rows_example :
    contents (run commands buffer) ≡ reading 1 10 ∷ reading 2 20 ∷ reading 3 30 ∷ []
run_keeps_rows_example = run_keeps_rows commands buffer

two_batches :
    (run commands buffer).batches ≡ (reading 1 10 ∷ reading 2 20 ∷ []) ∷ (reading 3 30 ∷ []) ∷ []
unfolding add flush
two_batches = refl

buffer-IsBounded : IsBounded buffer
buffer-IsBounded = record { positive = omega arith; waiting = omega arith; written = tt }

run-IsBounded_example : IsBounded (run commands buffer)
run-IsBounded_example = run-IsBounded commands buffer buffer-IsBounded
