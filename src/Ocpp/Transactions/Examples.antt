-- ===== src/Ocpp/Transactions/Examples.antt =====
-- A transaction that is started, stopped and stopped again.
use evaggregator.Ocpp.Transactions.{
  StartRequest, StopRequest, TransactionRepository, get_active_transaction, start_transaction,
  stop_transaction,
}
use evaggregator.Ocpp.Transactions.Validity.{
  IsValid, Run-IsValid, here, next, start_step, stop_step,
}
use evaggregator.Base.{[], none, refl, ℕ}

abbrev nothing : TransactionRepository
nothing = record { active_by_charger = []; records = [] }

abbrev request : StartRequest
request = record {
  charger_id = 5;
  tenant_id = 1;
  connector_id = 1;
  id_tag = 8;
  meter_start = 100;
  start_timestamp = 1_000;
}

abbrev stop_at : ℕ → StopRequest
stop_at meter = record {
  transaction_id = 40;
  meter_stop = meter;
  stop_timestamp = 2_000;
  reason = none;
}

nothing-IsValid : IsValid nothing
unfolding get_active_transaction
nothing-IsValid = record { at_charger = λ charger t e. cc }

Run-IsValid_example :
    IsValid (stop_transaction (stop_at 150) (start_transaction 40 request nothing).1).1
Run-IsValid_example =
    Run-IsValid (next (next here (start_step 40 request refl)) (stop_step (stop_at 150)))
      nothing-IsValid
