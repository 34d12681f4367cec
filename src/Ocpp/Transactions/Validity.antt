-- ===== src/Ocpp/Transactions/Validity.antt =====
-- A charger's active transaction is one that was started on it and has not been stopped.
use evaggregator.Ocpp.Transactions.{
  ActiveTransaction, StartRequest, StopRequest, TransactionRecord, TransactionRepository, active,
  after_stop, closed_record, drop_active, get_active_transaction, is_completed, open_record,
  opened_transaction, start_transaction, stop_known, stop_transaction,
}
use evaggregator.Base.{
  Bool-cases, Option-cases, arith, inl, inr, nat_eq, none, refl, some, subst, ℕ, ◌==◌, ◌≡◌, ◌≢◌,
}
use evaggregator.Base.Dict.{Dict, insert, lookup, lookup-erase, lookup-insert, lookup-insert_self}

-- The entry `t` of the charger names it, and its record is open and names it too.
pub record IsOpenOn (charger : ℕ) (t : ActiveTransaction) (s : TransactionRepository) : Type 0 where
  pub on_charger : t.charger_id ≡ charger
  pub entry : TransactionRecord
  pub found : lookup t.id s.records ≡ some entry
  pub open_status : entry.status ≡ active
  pub entry_charger : entry.charger_id ≡ charger

pub record IsValid (s : TransactionRepository) : Type 0 where
  pub at_charger :
      (charger : ℕ) (t : ActiveTransaction)
      → get_active_transaction charger s ≡ some t
      → IsOpenOn charger t s

started :
    (new_id : ℕ) (q : StartRequest) (s : TransactionRepository) (charger : ℕ)
    (t : ActiveTransaction)
    → lookup new_id s.records ≡ none
    → IsValid s
    → get_active_transaction charger (start_transaction new_id q s).1 ≡ some t
    → IsOpenOn charger t (start_transaction new_id q s).1
unfolding start_transaction get_active_transaction
started new_id q s charger t fresh v e =
    let o =
      open_record (some q.tenant_id) q.charger_id (some q.meter_start) (some q.start_timestamp) in
    let here =
      lookup-insert q.charger_id charger (opened_transaction new_id q) s.active_by_charger in
    elim (Bool-cases (q.charger_id == charger)) [
      | inl same ↦
          let new : opened_transaction new_id q ≡ t = ground arith in
          record {
            on_charger = ground arith;
            entry = o;
            found =
                subst (λ (x : ActiveTransaction). lookup x.id (insert new_id o s.records) ≡ some o)
                  new (lookup-insert_self new_id o s.records);
            open_status = refl;
            entry_charger = ground arith;
          }
      | inr other ↦
          let h = v.at_charger charger t (ground arith) in
          record {
            on_charger = h.on_charger;
            entry = h.entry;
            found = ground (arith, lookup-insert new_id t.id o s.records, h.found);
            open_status = h.open_status;
            entry_charger = h.entry_charger;
          }
    ]

start-IsValid :
    (new_id : ℕ) (q : StartRequest) (s : TransactionRepository)
    → lookup new_id s.records ≡ none
    → IsValid s
    → IsValid (start_transaction new_id q s).1
unfolding start_transaction get_active_transaction
start-IsValid new_id q s fresh v = record {
  at_charger = λ charger t e. started new_id q s charger t fresh v e;
}

lookup-drop_active :
    (charger c tx : ℕ) (d : Dict ℕ ActiveTransaction) (t : ActiveTransaction)
    → lookup charger (drop_active c tx d) ≡ some t
    → (lookup charger d ≡ some t) × (charger ≡ c → t.id ≢ tx)
lookup-drop_active charger c tx d t h = elim (Option-cases (lookup c d)) [
  | inl e ↦ (ground arith, λ same is. ground arith)
  | inr (x, e) ↦ elim (Bool-cases (x.id == tx)) [
    | inr n ↦ (ground arith, λ same is. ground arith)
    | inl y ↦ (
      ground (arith, lookup-erase c charger d),
      λ same is. ground (arith, lookup-erase c charger d),
    )
  ]
]

-- A stop that goes through.
stopped :
    (q : StopRequest) (x : TransactionRecord) (s : TransactionRepository)
    → lookup q.transaction_id s.records ≡ some x
    → IsValid s
    → IsValid (after_stop q x s)
unfolding get_active_transaction
stopped q x s found v = record {
  at_charger = λ charger t e.
      let (was, apart) =
        lookup-drop_active charger x.charger_id q.transaction_id s.active_by_charger t e in
      let h = v.at_charger charger t was in
      record {
        on_charger = h.on_charger;
        entry = h.entry;
        found = ground (
          arith,
          lookup-insert q.transaction_id t.id (closed_record q x) s.records,
          h.found,
          h.entry_charger,
          apart,
        );
        open_status = h.open_status;
        entry_charger = h.entry_charger;
      };
}

pub stop-IsValid :
    (q : StopRequest) (s : TransactionRepository) → IsValid s → IsValid (stop_transaction q s).1
unfolding stop_transaction stop_known
stop-IsValid q s v = elim (Option-cases (lookup q.transaction_id s.records)) [
  | inl e ↦ rw (e, stop_transaction) v
  | inr (x, e) ↦ elim (Bool-cases (is_completed x.status)) [
    | inl y ↦ rw (e, y, stop_transaction) v
    | inr n ↦ rw (e, n, stop_transaction) (stopped q x s e v)
  ]
]

-- Starts, with unused ids, and stops, in any order.
pub data Step (s : TransactionRepository) : TransactionRepository → Type 0 where
  start_step :
      (new_id : ℕ) (q : StartRequest)
      → lookup new_id s.records ≡ none
      → Step s (start_transaction new_id q s).1
  stop_step : (q : StopRequest) → Step s (stop_transaction q s).1

pub data Run (s : TransactionRepository) : TransactionRepository → Type 0 where
  here : Run s s
  next : {t u : TransactionRepository} → Run s t → Step t u → Run s u

Step-IsValid : {s u : TransactionRepository} → Step s u → IsValid s → IsValid u
Step-IsValid {s} (start_step new_id q fresh) v = start-IsValid new_id q s fresh v
Step-IsValid {s} (stop_step q) v = stop-IsValid q s v

-- From a valid repository, such as the empty one, whatever is started and stopped: the active
-- transaction of a charger names that charger, and its record is there, is not completed, and names
-- the charger too.
pub Run-IsValid : {s u : TransactionRepository} → Run s u → IsValid s → IsValid u
Run-IsValid here v = v
Run-IsValid (next r st) v = Step-IsValid st (Run-IsValid r v)
