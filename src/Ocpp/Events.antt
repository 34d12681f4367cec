-- ===== src/Ocpp/Events.antt =====
-- backend/src/evagg/ocpp_gateway/events.py: what the gateway publishes, as the recording publisher
-- keeps it. The payload of a generic event is a number that is only carried.
use evaggregator.Base.{List, Option, [], ℕ, ◌++◌, ◌∷◌}

pub record StatusEvent : Type 0 where
  pub tenant_id : ℕ
  pub charger_id : ℕ
  pub connector_id : ℕ
  pub status : ℕ
  pub error_code : Option ℕ

pub record StopEvent : Type 0 where
  pub tenant_id : Option ℕ
  pub charger_id : ℕ
  pub transaction_id : ℕ

pub data OcppEventType : Type 0 where
  data_transfer firmware_status diagnostics_status security_event log_status : OcppEventType

pub record OcppEvent : Type 0 where
  pub tenant_id : ℕ
  pub charger_id : ℕ
  pub event_type : OcppEventType
  pub payload : List (Option ℕ)

pub record EventPublisher : Type 0 where
  pub disconnected : List (ℕ × ℕ)
  pub status_notifications : List StatusEvent
  pub stop_transactions : List StopEvent
  pub ocpp_events : List OcppEvent

unfoldable pub publish_disconnected : ℕ → ℕ → EventPublisher → EventPublisher
publish_disconnected tenant charger p = record p {
  disconnected = p.disconnected ++ (tenant, charger) ∷ [];
}

unfoldable pub publish_status_notification : StatusEvent → EventPublisher → EventPublisher
publish_status_notification e p = record p {
  status_notifications = p.status_notifications ++ e ∷ [];
}

unfoldable pub publish_stop_transaction : StopEvent → EventPublisher → EventPublisher
publish_stop_transaction e p = record p { stop_transactions = p.stop_transactions ++ e ∷ [] }

unfoldable pub publish_ocpp_event : OcppEvent → EventPublisher → EventPublisher
publish_ocpp_event e p = record p { ocpp_events = p.ocpp_events ++ e ∷ [] }
