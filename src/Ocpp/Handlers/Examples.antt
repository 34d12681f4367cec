-- ===== src/Ocpp/Handlers/Examples.antt =====
-- A gateway on which one transaction is started, metered and stopped, with a retried stop.
use evaggregator.Ocpp.Handlers.{
  Frame, Gateway, Origin, Sample, StartFrame, handle_authorize, handle_frame, handle_meter_values,
  handle_start_transaction, handle_stop_transaction, meter_values_frame, start_request,
  stop_request,
}
use evaggregator.Ocpp.Handlers.Stops.{IsPublished, here, next, one_stop_event}
use evaggregator.Ocpp.Handlers.Rows.{handle_frames}
use evaggregator.Ocpp.Transactions.{StopRequest, start_transaction, stop_known, stop_transaction}
use evaggregator.Ocpp.Authorization.{AuthStatus, accepted, authorize, invalid}
use evaggregator.Base.{List, [], none, refl, some, ℕ, ◌+◌, ◌∷◌}

abbrev refuse_roaming : ℕ → Unit {0} → AuthStatus × Unit {0}
refuse_roaming tag u = (invalid, u)

abbrev gateway : Gateway (Unit {0})
gateway = record {
  registry = [];
  connectors = [];
  local_tags = (4, accepted) ∷ [];
  roaming = tt;
  transactions = record { active_by_charger = []; records = [] };
  meter_values = record {
    max_batch_size = 100;
    flush_interval = 5;
    batches = [];
    buffer = [];
    buffer_opened_at = none;
  };
  publisher = record {
    disconnected = [];
    status_notifications = [];
    stop_transactions = [];
    ocpp_events = [];
  };
  firmware = none;
  latest_readings = some [];
}

abbrev at : ℕ → Origin
at now = record { charger_id = 7; tenant_id = 1; now = now; new_id = 30 + now }

abbrev starting : StartFrame
starting = record { connector_id = 1; id_tag = 4; meter_start = 0; start_timestamp = 10 }

abbrev stopping : StopRequest
stopping = record { transaction_id = 31; meter_stop = 50; stop_timestamp = 90; reason = none }

abbrev one_sample : Sample
one_sample = record { measurand = 1; value = 20; unit = 1; opened = 2; checked = 2 }

abbrev session_frames : List (Origin × Frame)
session_frames =
    (at 1, start_request starting)
    ∷ (at 2, meter_values_frame 31 2 (one_sample ∷ []))
    ∷ (at 3, stop_request stopping)
    ∷ (at 4, stop_request stopping)
    ∷ []

one_stop_event_example : IsPublished (handle_frames refuse_roaming 300 session_frames gateway)
unfolding handle_frame handle_start_transaction handle_authorize start_transaction
    handle_meter_values handle_stop_transaction stop_transaction stop_known authorize
one_stop_event_example =
    one_stop_event refuse_roaming 300 {g = gateway}
      (next
        (next
          (next (next here (at 1) (start_request starting) refl) (at 2)
            (meter_values_frame 31 2 (one_sample ∷ [])) refl)
          (at 3) (stop_request stopping) refl)
        (at 4) (stop_request stopping) refl)
      (record { once = λ t. refl })
