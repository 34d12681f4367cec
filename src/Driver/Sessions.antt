-- ===== src/Driver/Sessions.antt =====
-- backend/src/evagg/charging_auth/session_start.py, autocharge.py and
-- backend/src/evagg/driver_app/session_history.py: a driver starts and stops charging. The checks of a
-- QR code and of a certificate, and the default payment method of a driver, are parameters; so is the
-- estimate of energy and cost of a session that is stopped.
pub mod Endings
mod Examples
use evaggregator.Driver.Vehicles.{VehicleStore, list_for_driver}
use evaggregator.Driver.Rewards.{RewardsStore, award_for_completed_session}
use evaggregator.Driver.Tags.{IdTag, driver_tag, mac_tag, tag_number}
use evaggregator.Roaming.Commands.{Fresh, command_accepted, command_of, remote_start, remote_stop}
use evaggregator.Roaming.Bindings.{
  SessionChargerBinding, SessionChargerMap, get_charger_for_session, set_binding,
}
use evaggregator.Ocpp.Commands.{
  CommandError, CommandLogStore, CommandOutcome, CommandResult, CommandStatus, Dispatch,
  send_command,
}
use evaggregator.Ocpp.Presence.{PresenceRegistry}
use evaggregator.Ocpp.Transactions.{
  ActiveTransaction, TransactionRepository, get_active_transaction,
}
use evaggregator.Base.{
  Bool, Exec, List, Option, Result, [], any_by, err, false, filter_by, if◌then◌else◌, leb, nat_eq,
  none, ok, some, suc, true, zero, ℕ, ◌&&◌, ◌++◌, ◌==◌, ◌∷◌,
}
use evaggregator.Base.Dict.{Dict, insert, lookup}

pub data SessionStartError : Type 0 where
  invalid_token unknown_mac not_opted_in offline_charger no_active : SessionStartError
  responded_with : CommandStatus → SessionStartError
  session_not_found : SessionStartError

pub data AuthMethod : Type 0 where
  qr autocharge plug_and_charge app : AuthMethod

pub record SessionStartResult : Type 0 where
  pub session_id : ℕ
  pub driver_id : ℕ
  pub charger_id : ℕ
  pub connector_id : Option ℕ
  pub id_tag : IdTag
  pub payment_method : Option ℕ
  pub auth_method : AuthMethod

pub record CompletedSession : Type 0 where
  pub session_id : ℕ
  pub driver_id : ℕ
  pub charger_id : ℕ
  pub started_at : ℕ
  pub ended_at : ℕ
  pub energy_kwh : ℕ
  pub cost_minor_units : ℕ
  pub currency : ℕ

pub record DriverSessions : Type 0 where
  pub bindings : SessionChargerMap
  pub owner : Dict ℕ ℕ
  pub rewards : RewardsStore
  pub history : List CompletedSession
  pub command_log : CommandLogStore

-- MAC addresses are in lower case already.
abbrev pub MacStore : Type 0
MacStore = Dict ℕ ℕ

pub register_mac : ℕ → ℕ → MacStore → MacStore
register_mac mac driver s = insert mac driver s

unfoldable pub get_driver_id_for_mac : ℕ → MacStore → Option ℕ
get_driver_id_for_mac mac s = lookup mac s

pub opted_in : ℕ → VehicleStore → Bool
opted_in driver s = any_by (λ v. v.plug_and_charge_enabled) (list_for_driver driver s)

abbrev pub or_one : Option ℕ → ℕ
or_one none = 1
or_one (some zero) = 1
or_one (some (suc n)) = suc n

abbrev pub connector_payload : IdTag → Option ℕ → List ℕ
connector_payload tag none = tag_number tag ∷ []
connector_payload tag (some c) = tag_number tag ∷ c ∷ []

pub record StartCall : Type 0 where
  pub driver_id : ℕ
  pub tenant_id : ℕ
  pub charger_id : ℕ
  pub connector_id : Option ℕ
  pub id_tag : IdTag
  pub auth_method : AuthMethod

abbrev pub start_result : Fresh → StartCall → Option ℕ → SessionStartResult
start_result f q payment = record {
  session_id = f.session_id;
  driver_id = q.driver_id;
  charger_id = q.charger_id;
  connector_id = q.connector_id;
  id_tag = q.id_tag;
  payment_method = payment;
  auth_method = q.auth_method;
}

abbrev pub begun :
    Fresh
    → StartCall
    → Option ℕ
    → Result CommandError CommandResult
    → DriverSessions
    → Result SessionStartError SessionStartResult × DriverSessions
begun f q payment (err e) s = (err offline_charger, s)
begun f q payment (ok r) s =
    if command_accepted r.status
    then (
      ok (start_result f q payment),
      record s {
        bindings =
            set_binding f.session_id
              (record {
                charger_id = q.charger_id;
                tenant_id = q.tenant_id;
                connector_id = or_one q.connector_id;
              })
              s.bindings;
        owner = insert f.session_id q.driver_id s.owner;
      },
    )
    else (err (responded_with r.status), s)

pub record Estimate : Type 0 where
  pub energy_kwh : ℕ
  pub cost_minor_units : ℕ
  pub currency : ℕ

abbrev pub completed_session : ℕ → ℕ → ℕ → ActiveTransaction → ℕ → Estimate → CompletedSession
completed_session session driver charger t now e = record {
  session_id = session;
  driver_id = driver;
  charger_id = charger;
  started_at = t.start_timestamp;
  ended_at = now;
  energy_kwh = e.energy_kwh;
  cost_minor_units = e.cost_minor_units;
  currency = e.currency;
}

abbrev pub ended :
    CompletedSession
    → Result CommandError CommandResult
    → DriverSessions
    → Result SessionStartError (Unit {0}) × DriverSessions
ended c (err e) s = (err offline_charger, s)
ended c (ok r) s =
    if command_accepted r.status
    then (
      ok tt,
      record s {
        rewards = (award_for_completed_session c.driver_id s.rewards).1;
        history = s.history ++ c ∷ [];
      },
    )
    else (err (responded_with r.status), s)

abbrev pub owned_by : ℕ → Option ℕ → Bool
owned_by driver none = false
owned_by driver (some d) = d == driver

pub owned_binding : ℕ → ℕ → DriverSessions → Option SessionChargerBinding
owned_binding session driver s =
    if owned_by driver (lookup session s.owner)
    then get_charger_for_session session s.bindings
    else none

pub record SessionStatus : Type 0 where
  pub charger_id : ℕ
  pub connector_id : ℕ
  pub is_active : Bool

abbrev pub is_some : Option ActiveTransaction → Bool
is_some none = false
is_some (some t) = true

pub get_session_status :
    ℕ → ℕ → TransactionRepository → DriverSessions → Result SessionStartError SessionStatus
get_session_status session driver t s = elim (owned_binding session driver s) [
  | none ↦ err session_not_found
  | some b ↦ ok (record {
    charger_id = b.charger_id;
    connector_id = b.connector_id;
    is_active = is_some (get_active_transaction b.charger_id t);
  })
]

pub list_completed : ℕ → ℕ → ℕ → (ℕ → ℕ) → List CompletedSession → List CompletedSession
list_completed driver date_from date_to date_of h =
    filter_by
      (λ c.
        (c.driver_id == driver)
        && (leb date_from (date_of c.ended_at) && leb (date_of c.ended_at) date_to))
      h

module _ (send : Dispatch → CommandOutcome) (timeout : ℕ) (presence : PresenceRegistry)
    (payment_of : ℕ → Option ℕ) where
  unfoldable pub dispatch_remote_start :
      Fresh → StartCall → Exec SessionStartError DriverSessions SessionStartResult
  dispatch_remote_start f q s =
      let (r, l) =
        send_command send timeout
          (command_of f q.charger_id q.tenant_id remote_start
            (connector_payload q.id_tag q.connector_id))
          presence s.command_log in
      begun f q (payment_of q.driver_id) r (record s { command_log = l })

  -- `verify token` is what a valid code says: the charger and the connector.
  unfoldable pub start_via_qr :
      (ℕ → Option (ℕ × ℕ))
      → Fresh
      → ℕ
      → ℕ
      → ℕ
      → Exec SessionStartError DriverSessions SessionStartResult
  start_via_qr verify f token driver tenant s = elim (verify token) [
    | none ↦ (err invalid_token, s)
    | some (charger, connector) ↦
        dispatch_remote_start f
          (record {
            driver_id = driver;
            tenant_id = tenant;
            charger_id = charger;
            connector_id = some connector;
            id_tag = driver_tag driver;
            auth_method = qr;
          })
          s
  ]

  abbrev pub start_opted_in :
      VehicleStore → Fresh → StartCall → Exec SessionStartError DriverSessions SessionStartResult
  start_opted_in vehicles f q s =
      if opted_in q.driver_id vehicles then dispatch_remote_start f q s else (err not_opted_in, s)

  unfoldable pub start_via_autocharge :
      VehicleStore
      → MacStore
      → Fresh
      → ℕ
      → ℕ
      → ℕ
      → Exec SessionStartError DriverSessions SessionStartResult
  start_via_autocharge vehicles macs f mac charger tenant s =
      elim (get_driver_id_for_mac mac macs) [
        | none ↦ (err unknown_mac, s)
        | some driver ↦
            start_opted_in vehicles f
              (record {
                driver_id = driver;
                tenant_id = tenant;
                charger_id = charger;
                connector_id = none;
                id_tag = mac_tag mac;
                auth_method = autocharge;
              })
              s
      ]

  -- `resolve cert` is the driver of a valid certificate.
  unfoldable pub start_via_plug_and_charge :
      (ℕ → Option ℕ)
      → VehicleStore
      → Fresh
      → ℕ
      → ℕ
      → ℕ
      → Exec SessionStartError DriverSessions SessionStartResult
  start_via_plug_and_charge resolve vehicles f cert charger tenant s = elim (resolve cert) [
    | none ↦ (err invalid_token, s)
    | some driver ↦
        start_opted_in vehicles f
          (record {
            driver_id = driver;
            tenant_id = tenant;
            charger_id = charger;
            connector_id = none;
            id_tag = driver_tag driver;
            auth_method = plug_and_charge;
          })
          s
  ]

  unfoldable pub start_via_app :
      Fresh → ℕ → ℕ → ℕ → ℕ → Exec SessionStartError DriverSessions SessionStartResult
  start_via_app f charger connector driver tenant s =
      dispatch_remote_start f
        (record {
          driver_id = driver;
          tenant_id = tenant;
          charger_id = charger;
          connector_id = some connector;
          id_tag = driver_tag driver;
          auth_method = app;
        })
        s

module _ (send : Dispatch → CommandOutcome) (timeout : ℕ) (presence : PresenceRegistry)
    (estimate : ActiveTransaction → ℕ → Estimate) where
  abbrev pub end_on :
      Fresh
      → ℕ
      → ℕ
      → ℕ
      → ℕ
      → Option ActiveTransaction
      → Exec SessionStartError DriverSessions (Unit {0})
  end_on f session driver tenant charger none s = (err no_active, s)
  end_on f session driver tenant charger (some t) s =
      let (r, l) =
        send_command send timeout (command_of f charger tenant remote_stop (t.id ∷ [])) presence
          s.command_log in
      ended (completed_session session driver charger t f.now (estimate t f.now)) r
        (record s { command_log = l })

  pub stop_own_session :
      Fresh → ℕ → ℕ → ℕ → TransactionRepository → Exec SessionStartError DriverSessions (Unit {0})
  stop_own_session f session driver tenant t s = elim (owned_binding session driver s) [
    | none ↦ (err session_not_found, s)
    | some b ↦ end_on f session driver tenant b.charger_id (get_active_transaction b.charger_id t) s
  ]
