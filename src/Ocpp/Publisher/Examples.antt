-- ===== src/Ocpp/Publisher/Examples.antt =====
-- A charger that reports a status and then disconnects.
use evaggregator.Ocpp.Events.{EventPublisher, StatusEvent}
use evaggregator.Ocpp.Publisher.Replays.{
  bus-replays, bus_calls, call_disconnected, call_status, record_calls, replay,
}
use evaggregator.Base.{[], none, ◌∷◌, ◌≡◌}

abbrev nothing_recorded : EventPublisher
nothing_recorded = record {
  disconnected = [];
  status_notifications = [];
  stop_transactions = [];
  ocpp_events = [];
}

abbrev available : StatusEvent
available = record {
  tenant_id = 1;
  charger_id = 7;
  connector_id = 1;
  status = 2;
  error_code = none;
}

bus-replays_example :
    replay (bus_calls (call_status available ∷ call_disconnected 1 7 ∷ []) []) nothing_recorded
    ≡ record_calls (call_status available ∷ call_disconnected 1 7 ∷ []) nothing_recorded
unfolding replay
bus-replays_example =
    bus-replays (call_status available ∷ call_disconnected 1 7 ∷ []) [] nothing_recorded
