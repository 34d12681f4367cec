-- ===== src/Ocpp/Publisher/Replays.antt =====
-- The bus carries what the recording publisher records.
use evaggregator.Ocpp.Events.{
  EventPublisher, OcppEvent, StatusEvent, StopEvent, publish_disconnected, publish_ocpp_event,
  publish_status_notification, publish_stop_transaction,
}
use evaggregator.Ocpp.Publisher.{
  BusEvent, EventKind, Published, bus_disconnected, bus_ocpp_event, bus_status_notification,
  bus_stop_transaction, disconnected_kind, event_subject, ocpp_kind, status_kind, stop_kind,
}
use evaggregator.Base.{List, Option, [], ap, none, refl, some, ℕ, ◌++◌, ◌∙◌, ◌∷◌, ◌≡◌}

-- A call of a publisher.
pub data PublishCall : Type 0 where
  call_disconnected : ℕ → ℕ → PublishCall
  call_status : StatusEvent → PublishCall
  call_stop : StopEvent → PublishCall
  call_event : OcppEvent → PublishCall

pub record_call : PublishCall → EventPublisher → EventPublisher
unfolding publish_disconnected publish_status_notification publish_stop_transaction
    publish_ocpp_event
record_call (call_disconnected tenant charger) p = publish_disconnected tenant charger p
record_call (call_status e) p = publish_status_notification e p
record_call (call_stop e) p = publish_stop_transaction e p
record_call (call_event e) p = publish_ocpp_event e p

pub bus_call : PublishCall → Published → Published
unfolding bus_disconnected bus_status_notification bus_stop_transaction bus_ocpp_event
bus_call (call_disconnected tenant charger) b = bus_disconnected tenant charger b
bus_call (call_status e) b = bus_status_notification e b
bus_call (call_stop e) b = bus_stop_transaction e b
bus_call (call_event e) b = bus_ocpp_event e b

pub record_calls : List PublishCall → EventPublisher → EventPublisher
record_calls [] p = p
record_calls (c ∷ cs) p = record_calls cs (record_call c p)

pub bus_calls : List PublishCall → Published → Published
bus_calls [] b = b
bus_calls (c ∷ cs) b = bus_calls cs (bus_call c b)

-- What a consumer reads from an event, by its subject.
abbrev pub read_status : ℕ → ℕ → List (Option ℕ) → Option PublishCall
read_status tenant charger (some connector ∷ some status ∷ error ∷ []) = some (
    call_status (record {
      tenant_id = tenant;
      charger_id = charger;
      connector_id = connector;
      status = status;
      error_code = error;
    }))
read_status tenant charger vs = none

abbrev pub read_stop : Option ℕ → ℕ → List (Option ℕ) → Option PublishCall
read_stop tenant charger (some transaction ∷ []) =
    some (
      call_stop (record { tenant_id = tenant; charger_id = charger; transaction_id = transaction }))
read_stop tenant charger vs = none

abbrev pub read_kind : Option ℕ → ℕ → EventKind → List (Option ℕ) → Option PublishCall
read_kind (some tenant) charger disconnected_kind vs = some (call_disconnected tenant charger)
read_kind (some tenant) charger status_kind vs = read_status tenant charger vs
read_kind tenant charger stop_kind vs = read_stop tenant charger vs
read_kind (some tenant) charger (ocpp_kind t) vs =
    some (
      call_event
        (record { tenant_id = tenant; charger_id = charger; event_type = t; payload = vs }))
read_kind none charger disconnected_kind vs = none
read_kind none charger status_kind vs = none
read_kind none charger (ocpp_kind t) vs = none

abbrev pub read_event : BusEvent → Option PublishCall
read_event e = read_kind e.subject.tenant_id e.payload_charger e.subject.kind e.values_after

abbrev pub replay_one : Option PublishCall → EventPublisher → EventPublisher
replay_one none p = p
replay_one (some c) p = record_call c p

-- The events of the bus, told to a recording publisher in their order.
unfoldable pub replay : Published → EventPublisher → EventPublisher
unfolding record_call
replay [] p = p
replay (e ∷ es) p = replay es (replay_one (read_event e) p)

replay-append : (a b : Published) (p : EventPublisher) → replay (a ++ b) p ≡ replay b (replay a p)
unfolding replay
replay-append [] b p = refl
replay-append (e ∷ a) b p = replay-append a b (replay_one (read_event e) p)

replay-bus_call :
    (c : PublishCall) (b : Published) (p : EventPublisher)
    → replay (bus_call c b) p ≡ record_call c (replay b p)
unfolding bus_call event_subject replay record_call
replay-bus_call (call_disconnected tenant charger) b p = replay-append b _ p
replay-bus_call (call_status e) b p = replay-append b _ p
replay-bus_call (call_stop e) b p = replay-append b _ p
replay-bus_call (call_event e) b p = replay-append b _ p

-- The publisher over the bus implements the recording one: after any calls, the events on the bus, read
-- back in their order, tell a publisher exactly what the recording publisher has recorded of the same
-- calls, every kind of event with all of its values.
pub bus-replays :
    (cs : List PublishCall) (b : Published) (p : EventPublisher)
    → replay (bus_calls cs b) p ≡ record_calls cs (replay b p)
unfolding bus_calls record_calls
bus-replays [] b p = refl
bus-replays (c ∷ cs) b p =
    bus-replays cs (bus_call c b) p ∙ ap (record_calls cs) (replay-bus_call c b p)
