-- ===== src/Ocpp/Commands.antt =====
-- backend/src/evagg/ocpp_gateway/commands.py: remote commands and their log, and firmware updates.
-- The transport to the charger is a parameter. Payloads and results are numbers that are carried.
pub mod Logging
pub mod Firmware
use evaggregator.Base.{
  Exec, List, Option, Result, [], err, filter_by, if◌then◌else◌, ltb, nat_eq, none, ok, pair_eq,
  some, take, ℕ, ◌==◌, ◌∷◌,
}
use evaggregator.Ocpp.Presence.{PresenceRegistry, PresenceState, get_state, offline, online}
use evaggregator.Base.Dict.{Dict, insert, lookup, values}
use mathlib.Core.List.{reverse}

pub data CommandStatus : Type 0 where
  awaiting accepted rejected timed_out : CommandStatus

pub data CommandType : Type 0 where
  set_charging_profile update_firmware : CommandType
  other_command : ℕ → CommandType

pub record CommandLogRecord : Type 0 where
  pub id : ℕ
  pub charger_id : ℕ
  pub tenant_id : ℕ
  pub command_type : CommandType
  pub status : CommandStatus
  pub requested_at : ℕ
  pub responded_at : Option ℕ
  pub reply : Option ℕ

abbrev pub CommandLogStore : Type 0
CommandLogStore = Dict ℕ CommandLogRecord

pub data CommandError : Type 0 where
  charger_offline exceeds_capacity unknown_command unknown_firmware_update : CommandError

pub record CommandRequest : Type 0 where
  pub command_id : ℕ
  pub charger_id : ℕ
  pub tenant_id : ℕ
  pub command_type : CommandType
  pub payload : List ℕ
  pub timeout : Option ℕ
  pub now : ℕ
  pub responded : ℕ

abbrev pub pending_record : CommandRequest → CommandLogRecord
pending_record q = record {
  id = q.command_id;
  charger_id = q.charger_id;
  tenant_id = q.tenant_id;
  command_type = q.command_type;
  status = awaiting;
  requested_at = q.now;
  responded_at = none;
  reply = none;
}

pub create : CommandRequest → CommandLogStore → CommandLogStore
create q s = insert q.command_id (pending_record q) s

abbrev pub responded_record : CommandStatus → Option ℕ → ℕ → CommandLogRecord → CommandLogRecord
responded_record status reply now r = record r {
  status = status;
  responded_at = some now;
  reply = reply;
}

-- `self._records[command_id]` raises on an id that is not there.
pub mark_responded : ℕ → CommandStatus → Option ℕ → ℕ → CommandLogStore → Option CommandLogStore
mark_responded id status reply now s = elim (lookup id s) [
  | none ↦ none
  | some r ↦ some (insert id (responded_record status reply now r) s)
]

pub get_command : ℕ → CommandLogStore → Option CommandLogRecord
get_command id s = lookup id s

pub list_recent : ℕ → ℕ → CommandLogStore → List CommandLogRecord
list_recent charger limit s =
    take limit (reverse (filter_by (λ r. r.charger_id == charger) (values s)))

pub record CommandOutcome : Type 0 where
  pub status : CommandStatus
  pub reply : Option ℕ

-- (charger, connector) -> watts
abbrev pub Capacities : Type 0
Capacities = Dict (ℕ × ℕ) ℕ

pub get_max_power_watts : ℕ → ℕ → Capacities → Option ℕ
get_max_power_watts charger connector s = lookup (charger, connector) s

pub record FirmwareUpdateRecord : Type 0 where
  pub charger_id : ℕ
  pub tenant_id : ℕ
  pub version : ℕ
  pub status : ℕ

-- A version is a string: the empty one is 0, which `if version` takes for no version. The status
-- "pending" is 0.
pub record FirmwareUpdateStore : Type 0 where
  pub updates : Dict (ℕ × ℕ) FirmwareUpdateRecord
  pub latest_version_by_charger : Dict ℕ ℕ

unfoldable pub start_update : ℕ → ℕ → ℕ → FirmwareUpdateStore → FirmwareUpdateStore
start_update charger tenant version s = record {
  updates =
      insert (charger, version)
        (record { charger_id = charger; tenant_id = tenant; version = version; status = 0 })
        s.updates;
  latest_version_by_charger = insert charger version s.latest_version_by_charger;
}

abbrev pub with_status : ℕ → FirmwareUpdateRecord → FirmwareUpdateRecord
with_status status r = record r { status = status }

unfoldable pub update_firmware_status :
    ℕ → ℕ → ℕ → Exec CommandError FirmwareUpdateStore FirmwareUpdateRecord
update_firmware_status charger version status s = elim (lookup (charger, version) s.updates) [
  | none ↦ (err unknown_firmware_update, s)
  | some r ↦ (
    ok (with_status status r),
    record s { updates = insert (charger, version) (with_status status r) s.updates },
  )
]

abbrev pub get_update : ℕ → ℕ → FirmwareUpdateStore → Option FirmwareUpdateRecord
get_update charger version s = lookup (charger, version) s.updates

unfoldable pub get_latest_for_charger : ℕ → FirmwareUpdateStore → Option FirmwareUpdateRecord
get_latest_for_charger charger s = elim (lookup charger s.latest_version_by_charger) [
  | none ↦ none
  | some version ↦ if version == 0 then none else get_update charger version s
]

pub record CommandResult : Type 0 where
  pub command_id : ℕ
  pub status : CommandStatus
  pub reply : Option ℕ

-- What goes to the transport.
pub record Dispatch : Type 0 where
  pub node_id : ℕ
  pub charger_id : ℕ
  pub command_id : ℕ
  pub command_type : CommandType
  pub payload : List ℕ
  pub timeout : ℕ

-- The reply that says that the charger is offline is 0.
abbrev pub offline_reply : Option ℕ
offline_reply = some 0

abbrev pub or_default : ℕ → Option ℕ → ℕ
or_default d none = d
or_default d (some t) = t

abbrev pub dispatch_of : ℕ → PresenceState → CommandRequest → Dispatch
dispatch_of timeout p q = record {
  node_id = p.node_id;
  charger_id = q.charger_id;
  command_id = q.command_id;
  command_type = q.command_type;
  payload = q.payload;
  timeout = or_default timeout q.timeout;
}

abbrev pub reply_with :
    {A : Type 0}
    → Option CommandLogStore
    → Result CommandError A
    → CommandLogStore
    → Result CommandError A × CommandLogStore
reply_with none result s = (err unknown_command, s)
reply_with (some s') result s = (result, s')

-- The outcome is put on the log, and then the call returns or raises.
abbrev pub marked :
    {A : Type 0}
    → ℕ
    → CommandStatus
    → Option ℕ
    → ℕ
    → Result CommandError A
    → Exec CommandError CommandLogStore A
marked id status reply now result s = reply_with (mark_responded id status reply now s) result s

abbrev pub profile_request : CommandRequest → CommandRequest
profile_request q = record q { command_type = set_charging_profile; timeout = none }

module _ (send : Dispatch → CommandOutcome) (default_timeout : ℕ) where
  pub dispatched : CommandRequest → PresenceState → Exec CommandError CommandLogStore CommandResult
  dispatched q p s =
      let o = send (dispatch_of default_timeout p q) in
      marked q.command_id o.status o.reply q.responded
        (ok (record { command_id = q.command_id; status = o.status; reply = o.reply })) (create q s)

  pub refused_offline : CommandRequest → Exec CommandError CommandLogStore CommandResult
  refused_offline q s =
      marked q.command_id rejected offline_reply q.responded (err charger_offline) (create q s)

  -- What is done when the presence of the charger is known.
  pub sent : CommandRequest → Option PresenceState → Exec CommandError CommandLogStore CommandResult
  sent q none = refused_offline q
  sent q (some p) = elim p.status [ offline ↦ refused_offline q | online ↦ dispatched q p ]

  pub send_command :
      CommandRequest → PresenceRegistry → Exec CommandError CommandLogStore CommandResult
  send_command q presence = sent q (get_state q.charger_id presence)

  pub send_set_charging_profile :
      CommandRequest
      → ℕ
      → ℕ
      → Capacities
      → PresenceRegistry
      → Exec CommandError CommandLogStore CommandResult
  send_set_charging_profile q connector watts capacities presence s =
      elim (get_max_power_watts q.charger_id connector capacities) [
        | none ↦ send_command (profile_request q) presence s
        | some most ↦
            if ltb most watts
            then (err exceeds_capacity, s)
            else send_command (profile_request q) presence s
      ]

  -- The update is recorded before the command is sent.
  pub start_firmware_update :
      CommandRequest
      → ℕ
      → ℕ
      → PresenceRegistry
      → FirmwareUpdateStore × CommandLogStore
      → Result CommandError CommandResult × (FirmwareUpdateStore × CommandLogStore)
  start_firmware_update q version url presence (f, s) =
      let install : CommandRequest = record q {
        command_type = update_firmware;
        payload = url ∷ version ∷ [];
        timeout = none;
      } in
      let (r, s') = send_command install presence s in
      (r, (start_update q.charger_id q.tenant_id version f, s'))
