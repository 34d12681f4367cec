-- ===== src/Ocpp/Transactions.antt =====
-- backend/src/evagg/ocpp_gateway/transactions.py: the lifecycle of charging transactions.
pub mod Stops
pub mod Validity
mod Examples
use evaggregator.Base.{
  Bool, Exec, Option, err, false, if◌then◌else◌, nat_eq, none, ok, some, true, ℕ, ◌==◌,
}
use evaggregator.Base.Dict.{Dict, erase, insert, lookup}

pub record ActiveTransaction : Type 0 where
  pub id : ℕ
  pub charger_id : ℕ
  pub connector_id : ℕ
  pub id_tag : ℕ
  pub start_timestamp : ℕ

pub record StopResult : Type 0 where
  pub already_stopped : Bool
  pub tenant_id : Option ℕ
  pub charger_id : ℕ

pub data TransactionStatus : Type 0 where
  active completed : TransactionStatus

-- The dict of a record; a key that is not there is `none`.
pub record TransactionRecord : Type 0 where
  pub status : TransactionStatus
  pub tenant_id : Option ℕ
  pub charger_id : ℕ
  pub meter_start : Option ℕ
  pub start_timestamp : Option ℕ
  pub meter_stop : Option ℕ
  pub stop_timestamp : Option ℕ
  pub reason : Option ℕ

pub record TransactionRepository : Type 0 where
  pub active_by_charger : Dict ℕ ActiveTransaction
  pub records : Dict ℕ TransactionRecord

pub data TransactionError : Type 0 where
  unknown_transaction : TransactionError

abbrev pub open_record : Option ℕ → ℕ → Option ℕ → Option ℕ → TransactionRecord
open_record tenant charger meter_start start = record {
  status = active;
  tenant_id = tenant;
  charger_id = charger;
  meter_start = meter_start;
  start_timestamp = start;
  meter_stop = none;
  stop_timestamp = none;
  reason = none;
}

pub seed_active_transaction : ℕ → ActiveTransaction → TransactionRepository → TransactionRepository
seed_active_transaction charger t s = record s {
  active_by_charger = insert charger t s.active_by_charger;
  records = insert t.id (open_record none charger none none) s.records;
}

unfoldable pub get_active_transaction : ℕ → TransactionRepository → Option ActiveTransaction
get_active_transaction charger s = lookup charger s.active_by_charger

pub record StartRequest : Type 0 where
  pub charger_id : ℕ
  pub tenant_id : ℕ
  pub connector_id : ℕ
  pub id_tag : ℕ
  pub meter_start : ℕ
  pub start_timestamp : ℕ

abbrev pub opened_transaction : ℕ → StartRequest → ActiveTransaction
opened_transaction new_id q = record {
  id = new_id;
  charger_id = q.charger_id;
  connector_id = q.connector_id;
  id_tag = q.id_tag;
  start_timestamp = q.start_timestamp;
}

-- The new transaction's id is the first argument.
unfoldable pub start_transaction :
    ℕ → StartRequest → TransactionRepository → ActiveTransaction × TransactionRepository
start_transaction new_id q s = (
  opened_transaction new_id q,
  record s {
    active_by_charger = insert q.charger_id (opened_transaction new_id q) s.active_by_charger;
    records =
        insert new_id
          (open_record (some q.tenant_id) q.charger_id (some q.meter_start)
            (some q.start_timestamp))
          s.records;
  },
)

pub record StopRequest : Type 0 where
  pub transaction_id : ℕ
  pub meter_stop : ℕ
  pub stop_timestamp : ℕ
  pub reason : Option ℕ

abbrev pub is_completed : TransactionStatus → Bool
is_completed active = false
is_completed completed = true

abbrev pub closed_record : StopRequest → TransactionRecord → TransactionRecord
closed_record q r = record r {
  status = completed;
  meter_stop = some q.meter_stop;
  stop_timestamp = some q.stop_timestamp;
  reason = q.reason;
}

-- `if active is not None and active.id == transaction_id: del self._active[charger_id]`
abbrev pub drop_active : ℕ → ℕ → Dict ℕ ActiveTransaction → Dict ℕ ActiveTransaction
drop_active charger transaction d = elim (lookup charger d) [
  | none ↦ d
  | some t ↦ if t.id == transaction then erase charger d else d
]

abbrev pub stop_result : Bool → TransactionRecord → StopResult
stop_result already r = record {
  already_stopped = already;
  tenant_id = r.tenant_id;
  charger_id = r.charger_id;
}

abbrev pub after_stop :
    StopRequest → TransactionRecord → TransactionRepository → TransactionRepository
after_stop q r s = record s {
  active_by_charger = drop_active r.charger_id q.transaction_id s.active_by_charger;
  records = insert q.transaction_id (closed_record q r) s.records;
}

unfoldable pub stop_known :
    StopRequest → TransactionRecord → TransactionRepository → StopResult × TransactionRepository
stop_known q r s =
    if is_completed r.status
    then (stop_result true r, s)
    else (stop_result false r, after_stop q r s)

unfoldable pub stop_transaction :
    StopRequest → Exec TransactionError TransactionRepository StopResult
unfolding stop_known
stop_transaction q s = elim (lookup q.transaction_id s.records) [
  | none ↦ (err unknown_transaction, s)
  | some r ↦ let (result, s') = stop_known q r s in (ok result, s')
]
