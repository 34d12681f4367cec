-- ===== src/Driver/Starting.antt =====
-- backend/src/evagg/charging_auth/session_start_router.py: the routes that start, watch and stop a
-- session. A request's tenant is the signed one. `parse` is the UUID parser; a text that it refuses, and
-- an error of the check for revocation, raise what no route catches.
pub mod Calls
pub mod Verdicts
pub mod Qr
mod Examples
use evaggregator.Driver.QrTokens.{
  QrCodec, QrToken, QrTokenError, QrTokenPayload, expired_token, malformed_payload, malformed_token,
  raised, tampered_token, verify_qr_token,
}
use evaggregator.Base.{Option, Result, err, none, ok, some, ℕ}
use evaggregator.Driver.Sessions.{
  DriverSessions, Estimate, MacStore, SessionStartError, SessionStartResult, SessionStatus,
  get_session_status, invalid_token, no_active, not_opted_in, offline_charger, responded_with,
  session_not_found, start_via_app, start_via_autocharge, start_via_plug_and_charge, start_via_qr,
  stop_own_session, unknown_mac,
}
use evaggregator.Driver.Certificates.{
  PlugAndChargeError, malformed_certificate, missing_emaid, ocsp_bad_status, ocsp_malformed,
  ocsp_unreachable, ocsp_unsuccessful, outside_validity, revoked_certificate, unmapped_emaid,
  untrusted_certificate,
}
use evaggregator.Driver.Vehicles.{VehicleStore}
use evaggregator.Roaming.Commands.{Fresh}
use evaggregator.Ocpp.Commands.{CommandOutcome, Dispatch}
use evaggregator.Ocpp.Presence.{PresenceRegistry}
use evaggregator.Ocpp.Transactions.{ActiveTransaction, TransactionRepository}

-- `B` are the texts of the codec of the QR codes.
pub data StartRequest (B : Type 0) : Type 0 where
  -- token, driver and the secret to check it with
  qr_start : QrToken B → ℕ → ℕ → StartRequest B
  autocharge_start : ℕ → ℕ → StartRequest B
  plug_and_charge_start : ℕ → ℕ → StartRequest B
  -- charger, connector and driver
  app_start : ℕ → ℕ → ℕ → StartRequest B

pub data StartAnswer : Type 0 where
  started_session : SessionStartResult → StartAnswer
  status_report : SessionStatus → StartAnswer
  stopped : ℕ → StartAnswer
  refused : ℕ → SessionStartError → StartAnswer
  server_error : StartAnswer

unfoldable pub http_of : StartAnswer → ℕ
http_of (started_session r) = 200
http_of (status_report r) = 200
http_of (stopped session) = 200
http_of (refused status e) = status
http_of server_error = 500

-- Every start answers a `SessionStartError` with 400.
abbrev pub start_answer :
    Result SessionStartError SessionStartResult × DriverSessions → StartAnswer × DriverSessions
start_answer (err e, s) = (refused 400 e, s)
start_answer (ok r, s) = (started_session r, s)

-- `SessionNotFoundError` is answered with 404 by the other routes.
abbrev pub status_for : SessionStartError → ℕ
status_for invalid_token = 400
status_for unknown_mac = 400
status_for not_opted_in = 400
status_for offline_charger = 400
status_for no_active = 400
status_for (responded_with r) = 400
status_for session_not_found = 404

abbrev pub with_driver :
    (ℕ → Option ℕ)
    → ℕ
    → DriverSessions
    → (ℕ → StartAnswer × DriverSessions)
    → StartAnswer × DriverSessions
with_driver parse text s route = elim (parse text) [
  | none ↦ (server_error, s)
  | some driver ↦ route driver
]

-- What the service makes of a code: the outer `none` lets an exception through.
abbrev pub qr_target : Result QrTokenError QrTokenPayload → Option (Option (ℕ × ℕ))
qr_target (err malformed_token) = some none
qr_target (err tampered_token) = some none
qr_target (err malformed_payload) = some none
qr_target (err expired_token) = some none
qr_target (err raised) = none
qr_target (ok p) = some (some (p.charger_id, p.connector_id))

-- What the service makes of the validator's outcome: `none` lets the exception through.
abbrev pub certified : Result PlugAndChargeError ℕ → Option (Option ℕ)
certified (ok driver) = some (some driver)
certified (err malformed_certificate) = some none
certified (err untrusted_certificate) = some none
certified (err outside_validity) = some none
certified (err revoked_certificate) = some none
certified (err missing_emaid) = some none
certified (err unmapped_emaid) = some none
certified (err ocsp_unreachable) = none
certified (err ocsp_bad_status) = none
certified (err ocsp_malformed) = none
certified (err ocsp_unsuccessful) = none

-- What the routes are built with, and what one request reads besides.
pub record StartContext : Type 0 where
  pub vehicles : VehicleStore
  pub macs : MacStore
  pub presence : PresenceRegistry
  pub fresh : Fresh
  pub tenant_id : ℕ

module _ {B : Type 0} (codec : QrCodec B) (mac : ℕ → B → ℕ) (parse : ℕ → Option ℕ)
    (resolve : ℕ → Result PlugAndChargeError ℕ) (payment_of : ℕ → Option ℕ)
    (send : Dispatch → CommandOutcome) (timeout : ℕ) where
  abbrev pub scanned :
      Option (Option (ℕ × ℕ)) → ℕ → StartContext → DriverSessions → StartAnswer × DriverSessions
  scanned none driver c s = (server_error, s)
  scanned (some target) driver c s =
      start_answer (
        start_via_qr send timeout c.presence payment_of (λ n. target) c.fresh 0 driver c.tenant_id
          s)

  abbrev pub plugged :
      Option (Option ℕ) → ℕ → ℕ → StartContext → DriverSessions → StartAnswer × DriverSessions
  plugged none cert charger c s = (server_error, s)
  plugged (some driver) cert charger c s = start_answer (
      start_via_plug_and_charge send timeout c.presence payment_of (λ x. driver) c.vehicles c.fresh
        cert charger c.tenant_id s)

  unfoldable pub respond_start :
      StartRequest B → StartContext → DriverSessions → StartAnswer × DriverSessions
  respond_start (qr_start token driver secret) c s =
      with_driver parse driver s
        (λ d. scanned (qr_target (verify_qr_token codec mac token secret c.fresh.now)) d c s)
  respond_start (autocharge_start address charger) c s = start_answer (
      start_via_autocharge send timeout c.presence payment_of c.vehicles c.macs c.fresh address
        charger c.tenant_id s)
  respond_start (plug_and_charge_start cert charger) c s =
      plugged (certified (resolve cert)) cert charger c s
  respond_start (app_start charger connector driver) c s = with_driver parse driver s (λ d.
      start_answer (
        start_via_app send timeout c.presence payment_of c.fresh charger connector d c.tenant_id s))

abbrev pub status_answer : Result SessionStartError SessionStatus → StartAnswer
status_answer (err e) = refused (status_for e) e
status_answer (ok r) = status_report r

-- `get_status`
unfoldable pub respond_status :
    ℕ → ℕ → TransactionRepository → DriverSessions → StartAnswer × DriverSessions
respond_status session driver t s = (status_answer (get_session_status session driver t s), s)

abbrev pub stop_answer :
    ℕ → Result SessionStartError (Unit {0}) × DriverSessions → StartAnswer × DriverSessions
stop_answer session (err e, s) = (refused (status_for e) e, s)
stop_answer session (ok u, s) = (stopped session, s)

-- `stop_session`
unfoldable pub respond_stop :
    (ℕ → Option ℕ)
    → (Dispatch → CommandOutcome)
    → ℕ
    → (ActiveTransaction → ℕ → Estimate)
    → StartContext
    → ℕ
    → ℕ
    → TransactionRepository
    → DriverSessions
    → StartAnswer × DriverSessions
respond_stop parse send timeout estimate c session driver t s = with_driver parse driver s (λ d.
    stop_answer session
      (stop_own_session send timeout c.presence estimate c.fresh session d c.tenant_id t s))
