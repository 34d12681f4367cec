-- ===== src/Ocpp/Transactions/Stops.antt =====
-- A retried stop is a no-op.
use evaggregator.Ocpp.Transactions.{
  StopRequest, StopResult, TransactionRepository, closed_record, stop_transaction,
}
use evaggregator.Base.{Option-cases, arith, inl, inr, nat_eq, ok, true, ◌≡◌}
use evaggregator.Base.Dict.{lookup, lookup-insert}

-- Once a stop has gone through, any further stop of the same transaction, with whatever meter value,
-- time and reason, reports that it was stopped already, with the same tenant and charger, and
-- changes nothing.
pub stop_retry :
    (q p : StopRequest) (s : TransactionRepository) {r : StopResult}
    → p.transaction_id ≡ q.transaction_id
    → (stop_transaction q s).0 ≡ ok r
    → stop_transaction p (stop_transaction q s).1
      ≡ (ok (record r { already_stopped = true }), (stop_transaction q s).1)
unfolding stop_transaction
stop_retry q p s same done = elim (Option-cases (lookup q.transaction_id s.records)) [
  | inl e ↦ ground arith
  | inr (x, e) ↦
      ground (arith, lookup-insert q.transaction_id q.transaction_id (closed_record q x) s.records)
]
