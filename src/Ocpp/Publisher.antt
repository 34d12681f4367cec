-- ===== src/Ocpp/Publisher.antt =====
-- backend/src/evagg/ocpp_gateway/bus_event_publisher.py: the publisher that puts the gateway's events on
-- the bus. A subject is its parts, the last of which is the kind, and a payload is the values that
-- follow the charger's id in it, in the order of its keys.
pub mod Replays
mod Examples
use evaggregator.Ocpp.Events.{OcppEvent, OcppEventType, StatusEvent, StopEvent}
use evaggregator.Base.{List, Option, [], some, ℕ, ◌++◌, ◌∷◌}

pub data EventKind : Type 0 where
  disconnected_kind status_kind stop_kind : EventKind
  ocpp_kind : OcppEventType → EventKind

-- `ocpp.{tenant}.{charger}.{kind}`
pub record EventSubject : Type 0 where
  pub tenant_id : Option ℕ
  pub charger_id : ℕ
  pub kind : EventKind

pub record BusEvent : Type 0 where
  pub subject : EventSubject
  pub payload_charger : ℕ
  pub values_after : List (Option ℕ)

unfoldable pub event_subject : Option ℕ → ℕ → EventKind → EventSubject
event_subject tenant charger kind = record { tenant_id = tenant; charger_id = charger; kind = kind }

abbrev pub Published : Type 0
Published = List BusEvent

abbrev pub put_on_bus : Option ℕ → ℕ → EventKind → List (Option ℕ) → Published → Published
put_on_bus tenant charger kind vs bus =
    bus
    ++ record {
      subject = event_subject tenant charger kind;
      payload_charger = charger;
      values_after = vs;
    }
      ∷ []

unfoldable pub bus_disconnected : ℕ → ℕ → Published → Published
bus_disconnected tenant charger bus = put_on_bus (some tenant) charger disconnected_kind [] bus

unfoldable pub bus_status_notification : StatusEvent → Published → Published
bus_status_notification e bus =
    put_on_bus (some e.tenant_id) e.charger_id status_kind
      (some e.connector_id ∷ some e.status ∷ e.error_code ∷ []) bus

unfoldable pub bus_stop_transaction : StopEvent → Published → Published
bus_stop_transaction e bus =
    put_on_bus e.tenant_id e.charger_id stop_kind (some e.transaction_id ∷ []) bus

unfoldable pub bus_ocpp_event : OcppEvent → Published → Published
bus_ocpp_event e bus =
    put_on_bus (some e.tenant_id) e.charger_id (ocpp_kind e.event_type) e.payload bus
