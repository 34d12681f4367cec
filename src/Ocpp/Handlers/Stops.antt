-- ===== src/Ocpp/Handlers/Stops.antt =====
-- Which stop events are published.
use evaggregator.Ocpp.Handlers.{
  Frame, Gateway, Origin, Sample, StartFrame, authorize_request, boot_notification,
  data_transfer_frame, diagnostics_status_frame, finish_stop, firmware_status_frame,
  handle_authorize, handle_boot_notification, handle_data_transfer, handle_firmware_status,
  handle_frame, handle_meter_values, handle_start_transaction, handle_status_notification,
  handle_stop_transaction, log_status_frame, meter_values_frame, other_action, publish_event,
  security_event_frame, start_request, status_notification, stop_request,
}
use evaggregator.Ocpp.Transactions.{
  StopRequest, TransactionRecord, after_stop, closed_record, is_completed, open_record,
  start_transaction, stop_known, stop_result, stop_transaction, unknown_transaction,
}
use evaggregator.Ocpp.Events.{
  StopEvent, publish_ocpp_event, publish_status_notification, publish_stop_transaction,
}
use evaggregator.Ocpp.Meters.{flush}
use evaggregator.Ocpp.Authorization.{AuthStatus}
use evaggregator.Base.{
  Bool-cases, List, Option, Option-cases, [], ap, arith, err, false, if◌then◌else◌, inl, inr,
  nat_eq, none, ok, refl, some, subst, sym, true, ℕ, ◌++◌, ◌+◌, ◌==◌, ◌∷◌, ◌≡◌, ◌⊎◌,
}
use evaggregator.Base.Dict.{lookup, lookup-insert}

abbrev pub count_stops : ℕ → List StopEvent → ℕ
count_stops t [] = 0
count_stops t (e ∷ es) = (if e.transaction_id == t then 1 else 0) + count_stops t es

abbrev pub completed_once : Option TransactionRecord → ℕ
completed_once none = 0
completed_once (some r) = if is_completed r.status then 1 else 0

-- Each transaction has one stop event if it is completed, and none before.
pub record IsPublished {T : Type 0} (g : Gateway T) : Type 0 where
  pub once :
      (t : ℕ)
      → count_stops t g.publisher.stop_transactions
        ≡ completed_once (lookup t g.transactions.records)

count_stops-append :
    (t : ℕ) (a b : List StopEvent) → count_stops t (a ++ b) ≡ count_stops t a + count_stops t b
count_stops-append t [] b = omega arith
count_stops-append t (e ∷ a) b = omega (arith, count_stops-append t a b)

abbrev stop_event : StopRequest → TransactionRecord → StopEvent
stop_event q r = record {
  tenant_id = r.tenant_id;
  charger_id = r.charger_id;
  transaction_id = q.transaction_id;
}

-- Frames handled one after the other, each with an id that no transaction has.
pub data Run {T : Type 0} (roaming_check : ℕ → T → AuthStatus × T) (interval : ℕ) (g : Gateway T)
    : Gateway T → Type 0 where
  here : Run roaming_check interval g g
  next :
      {g' : Gateway T}
      → Run roaming_check interval g g'
      → (o : Origin) (f : Frame) → lookup o.new_id g'.transactions.records ≡ none
      → Run roaming_check interval g (handle_frame roaming_check interval o f g').1

module _ {T : Type 0} (roaming_check : ℕ → T → AuthStatus × T) (interval : ℕ) where
  meter_values_apart :
      (o : Origin) (t ts : ℕ) (xs : List Sample) (g : Gateway T)
      → ((handle_meter_values roaming_check interval o t ts xs g).transactions ≡ g.transactions)
        × ((handle_meter_values roaming_check interval o t ts xs g).publisher ≡ g.publisher)
  unfolding handle_meter_values
  meter_values_apart o t ts [] g = (refl, refl)
  meter_values_apart o t ts (x ∷ xs) g = meter_values_apart o t ts xs _

  -- Either nothing is stopped, or an open transaction is closed and announced.
  pub stop-cases :
      (q : StopRequest) (g : Gateway T)
      → ((handle_stop_transaction roaming_check interval q g).1
          ≡ record g { meter_values = flush g.meter_values })
        ⊎ ((r : TransactionRecord) × (lookup q.transaction_id g.transactions.records ≡ some r)
            × (is_completed r.status ≡ false)
            × ((handle_stop_transaction roaming_check interval q g).1 ≡ record g {
              meter_values = flush g.meter_values;
              transactions = after_stop q r g.transactions;
              publisher = publish_stop_transaction (stop_event q r) g.publisher;
            }))
  unfolding handle_stop_transaction stop_transaction stop_known
  stop-cases q g =
      let flushed : Gateway T = record g { meter_values = flush g.meter_values } in
      elim (Option-cases (lookup q.transaction_id g.transactions.records)) [
        | inl n ↦
            let st : stop_transaction q g.transactions ≡ (err unknown_transaction, g.transactions) =
              rw (n, stop_transaction) refl in
            inl (ap (λ x. (finish_stop roaming_check interval q flushed x).1) st)
        | inr (r, f) ↦ elim (Bool-cases (is_completed r.status)) [
          | inl y ↦
              let st : stop_transaction q g.transactions
                  ≡ (ok (stop_result true r), g.transactions) =
                rw (f, y, stop_transaction, stop_known) refl in
              inl (ap (λ x. (finish_stop roaming_check interval q flushed x).1) st)
          | inr n ↦
              let st : stop_transaction q g.transactions
                  ≡ (ok (stop_result false r), after_stop q r g.transactions) =
                rw (f, n, stop_transaction, stop_known) refl in
              inr (r, f, n, ap (λ x. (finish_stop roaming_check interval q flushed x).1) st)
        ]
      ]

  stop-IsPublished :
      (q : StopRequest) (g : Gateway T)
      → IsPublished g
      → IsPublished (handle_stop_transaction roaming_check interval q g).1
  unfolding publish_stop_transaction
  stop-IsPublished q g h = elim (stop-cases q g) [
    | inl e ↦ subst (λ x. IsPublished x) (sym e) (record { once = h.once })
    | inr (r, f, n, e) ↦
        subst (λ x. IsPublished x) (sym e)
          (record {
            once = λ t. ground (
              arith,
              h.once t,
              f,
              lookup-insert q.transaction_id t (closed_record q r) g.transactions.records,
              count_stops-append t g.publisher.stop_transactions (stop_event q r ∷ []),
            );
          })
  ]

  start-IsPublished :
      (o : Origin) (f : StartFrame) (g : Gateway T)
      → lookup o.new_id g.transactions.records ≡ none
      → IsPublished g
      → IsPublished (handle_start_transaction roaming_check interval o f g).1
  unfolding handle_start_transaction handle_authorize start_transaction
  start-IsPublished o f g fresh h = record {
    once = λ t. ground (
      arith,
      h.once t,
      lookup-insert o.new_id t
          (open_record (some o.tenant_id) o.charger_id (some f.meter_start)
            (some f.start_timestamp))
          g.transactions.records,
    );
  }

  frame-IsPublished :
      (o : Origin) (f : Frame) (g : Gateway T)
      → lookup o.new_id g.transactions.records ≡ none
      → IsPublished g
      → IsPublished (handle_frame roaming_check interval o f g).1
  unfolding handle_frame handle_boot_notification handle_status_notification handle_authorize
      handle_data_transfer handle_firmware_status publish_event publish_ocpp_event
      publish_status_notification
  frame-IsPublished o (boot_notification v m f) g fresh h = record { once = h.once }
  frame-IsPublished o (status_notification c s e) g fresh h = record { once = h.once }
  frame-IsPublished o (authorize_request tag) g fresh h = record { once = h.once }
  frame-IsPublished o (start_request f) g fresh h = start-IsPublished o f g fresh h
  frame-IsPublished o (stop_request q) g fresh h = stop-IsPublished q g h
  frame-IsPublished o (meter_values_frame t ts xs) g fresh h =
      let (a, b) = meter_values_apart o t ts xs g in record { once = λ u. rw (a, b) (h.once u) }
  frame-IsPublished o (data_transfer_frame v m d) g fresh h = record { once = h.once }
  frame-IsPublished o (firmware_status_frame s) g fresh h = record {
    once = λ u. ground (arith, h.once u);
  }
  frame-IsPublished o (diagnostics_status_frame s) g fresh h = record { once = h.once }
  frame-IsPublished o (security_event_frame k at info) g fresh h = record { once = h.once }
  frame-IsPublished o (log_status_frame s request) g fresh h = record { once = h.once }
  frame-IsPublished o (other_action a) g fresh h = h

  -- Whatever frames come, in any order and with any retries, each with an id for a new transaction
  -- that no transaction has: a transaction has exactly one stop event if it is completed and none
  -- otherwise, provided that this held before, as it does with no transactions and no events.
  pub one_stop_event :
      {g g' : Gateway T} → Run roaming_check interval g g' → IsPublished g → IsPublished g'
  one_stop_event here h = h
  one_stop_event (next r o f fresh) h = frame-IsPublished o f _ fresh (one_stop_event r h)
