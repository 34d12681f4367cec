-- ===== src/Ocpp/Handlers.antt =====
-- backend/src/evagg/ocpp_gateway/message_handlers.py: what the gateway does with a frame of a charger.
-- A frame stands for its action with the decoded payload; the roaming checker is a parameter.
pub mod Stops
pub mod Starts
pub mod Rows
mod Examples
use evaggregator.Ocpp.Transactions.{
  StartRequest, StopRequest, StopResult, TransactionError, TransactionRepository, start_transaction,
  stop_transaction,
}
use evaggregator.Ocpp.Registry.{
  ChargerRegistry, ConnectorStore, RegistrationStatus, update_status, upsert_on_boot,
}
use evaggregator.Ocpp.Meters.{LatestReadings, MeterReading, MeterValueBuffer, add, flush, update}
use evaggregator.Ocpp.Events.{
  EventPublisher, OcppEventType, data_transfer, diagnostics_status, firmware_status, log_status,
  publish_ocpp_event, publish_status_notification, publish_stop_transaction, security_event,
}
use evaggregator.Ocpp.Commands.{
  CommandError, FirmwareUpdateStore, get_latest_for_charger, update_firmware_status,
}
use evaggregator.Ocpp.Authorization.{
  AuthStatus, LocalIdTagStore, accepted, authorize, blocked, expired, invalid,
}
use evaggregator.Base.{
  Bool, Exec, List, Option, Result, [], err, false, if◌then◌else◌, none, ok, some, true, ℕ, ◌∷◌,
}

-- `T` is the state of the roaming checker. The last two stores are optional.
pub record Gateway (T : Type 0) : Type 0 where
  pub registry : ChargerRegistry
  pub connectors : ConnectorStore
  pub local_tags : LocalIdTagStore
  pub roaming : T
  pub transactions : TransactionRepository
  pub meter_values : MeterValueBuffer
  pub publisher : EventPublisher
  pub firmware : Option FirmwareUpdateStore
  pub latest_readings : Option LatestReadings

pub record StartFrame : Type 0 where
  pub connector_id : ℕ
  pub id_tag : ℕ
  pub meter_start : ℕ
  pub start_timestamp : ℕ

-- A sampled value, with what the clock shows when it is buffered.
pub record Sample : Type 0 where
  pub measurand : ℕ
  pub value : ℕ
  pub unit : ℕ
  pub opened : ℕ
  pub checked : ℕ

pub data Frame : Type 0 where
  boot_notification : Option ℕ → Option ℕ → Option ℕ → Frame
  status_notification : ℕ → ℕ → Option ℕ → Frame
  authorize_request : ℕ → Frame
  start_request : StartFrame → Frame
  stop_request : StopRequest → Frame
  meter_values_frame : ℕ → ℕ → List Sample → Frame
  data_transfer_frame : ℕ → Option ℕ → Option ℕ → Frame
  firmware_status_frame : ℕ → Frame
  diagnostics_status_frame : ℕ → Frame
  security_event_frame : ℕ → ℕ → Option ℕ → Frame
  log_status_frame : ℕ → Option ℕ → Frame
  other_action : ℕ → Frame

pub data Reply : Type 0 where
  boot_reply : RegistrationStatus → ℕ → Reply
  tag_reply : AuthStatus → Reply
  start_reply : ℕ → AuthStatus → Reply
  empty_reply data_accepted : Reply

pub data FrameError : Type 0 where
  unsupported_action : ℕ → FrameError
  transaction_error : TransactionError → FrameError
  firmware_error : CommandError → FrameError

-- Who sent the frame and when, and the id for a transaction that it starts.
pub record Origin : Type 0 where
  pub charger_id : ℕ
  pub tenant_id : ℕ
  pub now : ℕ
  pub new_id : ℕ

abbrev pub reading_of : Origin → ℕ → ℕ → Sample → MeterReading
reading_of o transaction ts x = record {
  tenant_id = o.tenant_id;
  transaction_id = transaction;
  charger_id = o.charger_id;
  ts = ts;
  measurand = x.measurand;
  value = x.value;
  unit = x.unit;
}

abbrev pub is_accepted : AuthStatus → Bool
is_accepted s = elim s [ accepted ↦ true | blocked ↦ false | expired ↦ false | invalid ↦ false ]

abbrev pub start_of : Origin → StartFrame → StartRequest
start_of o f = record {
  charger_id = o.charger_id;
  tenant_id = o.tenant_id;
  connector_id = f.connector_id;
  id_tag = f.id_tag;
  meter_start = f.meter_start;
  start_timestamp = f.start_timestamp;
}

abbrev pub update_latest : MeterReading → Option LatestReadings → Option LatestReadings
update_latest r none = none
update_latest r (some l) = some (update r l)

module _ {T : Type 0} (roaming_check : ℕ → T → AuthStatus × T) (interval : ℕ) where
  pub handle_boot_notification :
      Origin → Option ℕ → Option ℕ → Option ℕ → Gateway T → Reply × Gateway T
  handle_boot_notification o vendor model firmware g =
      let (b, registry') =
        upsert_on_boot
          (record {
            charger_id = o.charger_id;
            tenant_id = o.tenant_id;
            vendor = vendor;
            model = model;
            firmware_version = firmware;
            now = o.now;
          })
          g.registry in
      (boot_reply b.status interval, record g { registry = registry' })

  pub handle_status_notification : Origin → ℕ → ℕ → Option ℕ → Gateway T → Gateway T
  handle_status_notification o connector status error g = record g {
    connectors = update_status o.charger_id connector status error g.connectors;
    publisher =
        publish_status_notification
          (record {
            tenant_id = o.tenant_id;
            charger_id = o.charger_id;
            connector_id = connector;
            status = status;
            error_code = error;
          })
          g.publisher;
  }

  unfoldable pub handle_authorize : ℕ → Gateway T → AuthStatus × Gateway T
  handle_authorize tag g =
      let (a, roaming') = authorize roaming_check tag g.local_tags g.roaming in
      (a, record g { roaming = roaming' })

  pub handle_start_transaction : Origin → StartFrame → Gateway T → Reply × Gateway T
  unfolding handle_authorize
  handle_start_transaction o f g =
      let (a, g') = handle_authorize f.id_tag g in
      if is_accepted a
      then (let (t, transactions') = start_transaction o.new_id (start_of o f) g'.transactions in
          (start_reply t.id accepted, record g' { transactions = transactions' }))
      else (start_reply 0 a, g')

  abbrev pub after_stop_result : StopRequest → StopResult → EventPublisher → EventPublisher
  after_stop_result q r p =
      if r.already_stopped
      then p
      else publish_stop_transaction
          (record {
            tenant_id = r.tenant_id;
            charger_id = r.charger_id;
            transaction_id = q.transaction_id;
          })
          p

  -- What is done with the outcome of the stop, the buffer being flushed already.
  abbrev pub finish_stop :
      StopRequest
      → Gateway T
      → Result TransactionError StopResult × TransactionRepository
      → Result FrameError Reply × Gateway T
  finish_stop q g (err e, s) = (err (transaction_error e), record g { transactions = s })
  finish_stop q g (ok r, s) = (
    ok (tag_reply accepted),
    record g { transactions = s; publisher = after_stop_result q r g.publisher },
  )

  -- The buffered readings are written first, also if the stop raises.
  unfoldable pub handle_stop_transaction : StopRequest → Exec FrameError (Gateway T) Reply
  handle_stop_transaction q g =
      finish_stop q (record g { meter_values = flush g.meter_values })
        (stop_transaction q g.transactions)

  pub handle_meter_values : Origin → ℕ → ℕ → List Sample → Gateway T → Gateway T
  handle_meter_values o transaction ts [] g = g
  handle_meter_values o transaction ts (x ∷ xs) g =
      let r = reading_of o transaction ts x in
      handle_meter_values o transaction ts xs (record g {
        meter_values = add r x.opened x.checked g.meter_values;
        latest_readings = update_latest r g.latest_readings;
      })

  pub publish_event : Origin → OcppEventType → List (Option ℕ) → Gateway T → Gateway T
  publish_event o kind payload g = record g {
    publisher =
        publish_ocpp_event
          (record {
            tenant_id = o.tenant_id;
            charger_id = o.charger_id;
            event_type = kind;
            payload = payload;
          })
          g.publisher;
  }

  pub handle_data_transfer : Origin → ℕ → Option ℕ → Option ℕ → Gateway T → Reply × Gateway T
  unfolding publish_event
  handle_data_transfer o vendor message content g =
      (data_accepted, publish_event o data_transfer (some vendor ∷ message ∷ content ∷ []) g)

  -- The status goes to the update that the charger was told last.
  abbrev pub report_firmware : ℕ → ℕ → FirmwareUpdateStore → Result CommandError FirmwareUpdateStore
  report_firmware charger status f = elim (get_latest_for_charger charger f) [
    | none ↦ ok f
    | some r ↦
        let (result, f') = update_firmware_status charger r.version status f in
        elim result [ err e ↦ err e | ok _ ↦ ok f' ]
  ]

  unfoldable pub handle_firmware_status : Origin → ℕ → Exec FrameError (Gateway T) Reply
  unfolding publish_event
  handle_firmware_status o status g =
      let g' = publish_event o firmware_status (some status ∷ []) g in
      elim g.firmware [
        | none ↦ (ok empty_reply, g')
        | some f ↦ elim (report_firmware o.charger_id status f) [
          | err e ↦ (err (firmware_error e), g')
          | ok f' ↦ (ok empty_reply, record g' { firmware = some f' })
        ]
      ]

  unfoldable pub handle_frame : Origin → Frame → Exec FrameError (Gateway T) Reply
  unfolding handle_boot_notification handle_status_notification handle_authorize
      handle_start_transaction handle_stop_transaction handle_meter_values handle_data_transfer
      handle_firmware_status publish_event
  handle_frame o (boot_notification v m f) g =
      let (r, g') = handle_boot_notification o v m f g in (ok r, g')
  handle_frame o (status_notification c s e) g =
      (ok empty_reply, handle_status_notification o c s e g)
  handle_frame o (authorize_request tag) g =
      let (a, g') = handle_authorize tag g in (ok (tag_reply a), g')
  handle_frame o (start_request f) g = let (r, g') = handle_start_transaction o f g in (ok r, g')
  handle_frame o (stop_request q) g = handle_stop_transaction q g
  handle_frame o (meter_values_frame t ts xs) g = (ok empty_reply, handle_meter_values o t ts xs g)
  handle_frame o (data_transfer_frame v m d) g =
      let (r, g') = handle_data_transfer o v m d g in (ok r, g')
  handle_frame o (firmware_status_frame s) g = handle_firmware_status o s g
  handle_frame o (diagnostics_status_frame s) g =
      (ok empty_reply, publish_event o diagnostics_status (some s ∷ []) g)
  handle_frame o (security_event_frame kind at info) g =
      (ok empty_reply, publish_event o security_event (some kind ∷ some at ∷ info ∷ []) g)
  handle_frame o (log_status_frame s request) g =
      (ok empty_reply, publish_event o log_status (some s ∷ request ∷ []) g)
  handle_frame o (other_action a) g = (err (unsupported_action a), g)
