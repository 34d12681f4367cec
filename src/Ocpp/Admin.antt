-- ===== src/Ocpp/Admin.antt =====
-- backend/src/evagg/ocpp_gateway/command_router.py and presence_api.py: the operators' routes to the
-- chargers. A supported type of a command is a number of its name here.
pub mod Answers
use evaggregator.Ocpp.Commands.{
  CommandError, CommandLogRecord, CommandLogStore, CommandOutcome, CommandRequest, CommandResult,
  CommandType, Dispatch, charger_offline, exceeds_capacity, get_command, list_recent, other_command,
  send_command, set_charging_profile, unknown_command, unknown_firmware_update, update_firmware,
}
use evaggregator.Ocpp.Presence.{PresenceRegistry, PresenceState, get_state}
use evaggregator.Base.{
  Bool, List, Option, Result, [], any_by, err, false, if◌then◌else◌, nat_eq, none, ok, some, ℕ,
  ◌==◌, ◌∷◌,
}
use evaggregator.Base.Dict.{Dict, insert}

-- The names of the nine commands: RemoteStartTransaction, RemoteStopTransaction, Reset, UnlockConnector,
-- ChangeConfiguration, GetConfiguration, ClearCache, TriggerMessage and GetDiagnostics.
abbrev pub supported_command_types : List ℕ
supported_command_types = 1 ∷ 2 ∷ 4 ∷ 6 ∷ 7 ∷ 8 ∷ 9 ∷ 10 ∷ 11 ∷ []

abbrev pub is_supported_type : CommandType → Bool
is_supported_type set_charging_profile = false
is_supported_type update_firmware = false
is_supported_type (other_command n) = any_by (λ k. k == n) supported_command_types

pub data AdminAnswer : Type 0 where
  command_answer : CommandResult → AdminAnswer
  record_answer : CommandLogRecord → AdminAnswer
  records_answer : List CommandLogRecord → AdminAnswer
  -- 422, 409 and 404, and what no handler catches
  unsupported_type offline_answer command_not_found server_error : AdminAnswer

unfoldable pub answer_status : AdminAnswer → ℕ
answer_status (command_answer r) = 200
answer_status (record_answer r) = 200
answer_status (records_answer rs) = 200
answer_status unsupported_type = 422
answer_status offline_answer = 409
answer_status command_not_found = 404
answer_status server_error = 500

abbrev pub answer_command : Result CommandError CommandResult → AdminAnswer
answer_command (ok r) = command_answer r
answer_command (err charger_offline) = offline_answer
answer_command (err exceeds_capacity) = server_error
answer_command (err unknown_command) = server_error
answer_command (err unknown_firmware_update) = server_error

abbrev pub answered :
    Result CommandError CommandResult × CommandLogStore → AdminAnswer × CommandLogStore
answered (r, s) = (answer_command r, s)

unfoldable pub post_command :
    (Dispatch → CommandOutcome)
    → ℕ
    → CommandRequest
    → PresenceRegistry
    → CommandLogStore
    → AdminAnswer × CommandLogStore
post_command send timeout q presence s =
    if is_supported_type q.command_type
    then answered (send_command send timeout q presence s)
    else (unsupported_type, s)

unfoldable pub get_recent : ℕ → ℕ → CommandLogStore → AdminAnswer
get_recent charger limit s = records_answer (list_recent charger limit s)

abbrev pub own_record : ℕ → Option CommandLogRecord → AdminAnswer
own_record charger none = command_not_found
own_record charger (some r) = if r.charger_id == charger then record_answer r else command_not_found

unfoldable pub get_one_command : ℕ → ℕ → CommandLogStore → AdminAnswer
get_one_command charger id s = own_record charger (get_command id s)

unfoldable pub get_presence : ℕ → PresenceRegistry → Option PresenceState
get_presence charger s = get_state charger s

-- `{charger_id: await registry.get(charger_id) for charger_id in charger_ids}`
unfoldable pub get_bulk_presence :
    List ℕ → PresenceRegistry → Dict ℕ (Option PresenceState) → Dict ℕ (Option PresenceState)
get_bulk_presence [] s d = d
get_bulk_presence (c ∷ cs) s d = get_bulk_presence cs s (insert c (get_state c s) d)
