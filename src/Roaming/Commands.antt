-- ===== src/Roaming/Commands.antt =====
-- backend/src/evagg/ocpi/commands.py: the commands of a roaming partner, sent on as remote commands.
-- The transport to the charger is a parameter. A command's name and its payload are numbers.
pub mod Dispatches
use evaggregator.Roaming.Bindings.{SessionChargerMap, get_charger_for_session, set_binding}
use evaggregator.Ocpp.Commands.{
  CommandError, CommandLogStore, CommandOutcome, CommandRequest, CommandResult, CommandStatus,
  CommandType, Dispatch, accepted, awaiting, other_command, rejected, send_command, timed_out,
}
use evaggregator.Ocpp.Presence.{PresenceRegistry}
use evaggregator.Ocpp.Transactions.{
  ActiveTransaction, TransactionRepository, get_active_transaction,
}
use evaggregator.Base.{
  Bool, List, Option, Result, [], err, false, if◌then◌else◌, none, ok, some, true, ℕ, ◌∷◌,
}

pub data OcpiCommandStatus : Type 0 where
  granted denied unknown_session : OcpiCommandStatus

pub data DenialReason : Type 0 where
  charger_is_offline no_active_transaction : DenialReason
  charge_point_responded : CommandStatus → DenialReason

pub record OcpiCommandResult : Type 0 where
  pub status : OcpiCommandStatus
  pub session_id : Option ℕ
  pub reason : Option DenialReason

-- The OCPP commands that partners' commands turn into.
abbrev pub remote_start : CommandType
remote_start = other_command 1

abbrev pub remote_stop : CommandType
remote_stop = other_command 2

abbrev pub reserve : CommandType
reserve = other_command 3

abbrev pub unlock : CommandType
unlock = other_command 4

abbrev pub cancel : CommandType
cancel = other_command 5

-- The ids and clock readings of one command.
pub record Fresh : Type 0 where
  pub command_id : ℕ
  pub session_id : ℕ
  pub now : ℕ
  pub responded : ℕ

abbrev pub command_of : Fresh → ℕ → ℕ → CommandType → List ℕ → CommandRequest
command_of f charger tenant kind payload = record {
  command_id = f.command_id;
  charger_id = charger;
  tenant_id = tenant;
  command_type = kind;
  payload = payload;
  timeout = none;
  now = f.now;
  responded = f.responded;
}

abbrev pub command_accepted : CommandStatus → Bool
command_accepted s = elim s [
  | awaiting ↦ false
  | accepted ↦ true
  | rejected ↦ false
  | timed_out ↦ false
]

abbrev pub started :
    Fresh → ℕ → ℕ → ℕ → CommandResult → SessionChargerMap → OcpiCommandResult × SessionChargerMap
started f charger tenant connector r m =
    if command_accepted r.status
    then (
      record { status = granted; session_id = some f.session_id; reason = none },
      set_binding f.session_id
          (record { charger_id = charger; tenant_id = tenant; connector_id = connector }) m,
    )
    else (
      record {
        status = denied;
        session_id = none;
        reason = some (charge_point_responded r.status);
      },
      m,
    )

abbrev pub denied_for : Option ℕ → DenialReason → OcpiCommandResult
denied_for session reason = record { status = denied; session_id = session; reason = some reason }

abbrev pub answered : Option ℕ → Result CommandError CommandResult → OcpiCommandResult
answered session (err e) = denied_for session charger_is_offline
answered session (ok r) = record {
  status = if command_accepted r.status then granted else denied;
  session_id = session;
  reason = none;
}

abbrev pub after_start :
    Fresh
    → ℕ
    → ℕ
    → ℕ
    → Result CommandError CommandResult
    → SessionChargerMap
    → OcpiCommandResult × SessionChargerMap
after_start f charger tenant connector (err e) m = (denied_for none charger_is_offline, m)
after_start f charger tenant connector (ok r) m = started f charger tenant connector r m

module _ (send : Dispatch → CommandOutcome) (timeout : ℕ) (presence : PresenceRegistry) where
  -- The command is sent whatever happens to the session map, which is changed on acceptance only.
  pub start_session :
      Fresh
      → ℕ
      → ℕ
      → ℕ
      → ℕ
      → SessionChargerMap × CommandLogStore
      → OcpiCommandResult × (SessionChargerMap × CommandLogStore)
  start_session f location tenant token connector (m, l) =
      let (r, l') =
        send_command send timeout
          (command_of f location tenant remote_start (token ∷ connector ∷ [])) presence l in
      let (o, m') = after_start f location tenant connector r m in (o, (m', l'))

  pub dispatch :
      Fresh → ℕ → ℕ → CommandType → List ℕ → CommandLogStore → OcpiCommandResult × CommandLogStore
  dispatch f charger tenant kind payload l =
      let (r, l') =
        send_command send timeout (command_of f charger tenant kind payload) presence l in
      (answered none r, l')

  -- Stops what runs on the charger of the session.
  abbrev pub stop_on :
      Fresh
      → ℕ
      → ℕ
      → ℕ
      → Option ActiveTransaction
      → CommandLogStore
      → OcpiCommandResult × CommandLogStore
  stop_on f session charger tenant none l = (denied_for (some session) no_active_transaction, l)
  stop_on f session charger tenant (some t) l =
      let (r, l') =
        send_command send timeout (command_of f charger tenant remote_stop (t.id ∷ [])) presence
          l in
      (answered (some session) r, l')

  pub stop_session :
      Fresh
      → ℕ
      → ℕ
      → SessionChargerMap
      → TransactionRepository
      → CommandLogStore
      → OcpiCommandResult × CommandLogStore
  stop_session f session tenant m t l = elim (get_charger_for_session session m) [
    | none ↦ (record { status = unknown_session; session_id = none; reason = none }, l)
    | some b ↦ stop_on f session b.charger_id tenant (get_active_transaction b.charger_id t) l
  ]

  pub reserve_now :
      Fresh → ℕ → ℕ → ℕ → ℕ → ℕ → ℕ → CommandLogStore → OcpiCommandResult × CommandLogStore
  reserve_now f location tenant token expiry reservation connector l =
      dispatch f location tenant reserve (connector ∷ expiry ∷ token ∷ reservation ∷ []) l

  pub unlock_connector : Fresh → ℕ → ℕ → ℕ → CommandLogStore → OcpiCommandResult × CommandLogStore
  unlock_connector f location tenant connector l =
      dispatch f location tenant unlock (connector ∷ []) l

  pub cancel_reservation : Fresh → ℕ → ℕ → ℕ → CommandLogStore → OcpiCommandResult × CommandLogStore
  cancel_reservation f location tenant reservation l =
      dispatch f location tenant cancel (reservation ∷ []) l
