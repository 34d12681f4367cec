-- ===== src/Driver/Starting/Examples.antt =====
-- Driver 7 starts a session on charger 3, from the app and with a code of the driver's own making.
use evaggregator.Driver.QrTokens.{QrCodec, QrFields, fields, sign_qr_token}
use evaggregator.Base.{Option, Result, [], arith, err, none, refl, some, ℕ, ◌+◌, ◌∷◌, ◌≡◌}
use evaggregator.Driver.Starting.Verdicts.{Verdict, starts-Verdict}
use evaggregator.Driver.Starting.{
  StartAnswer, StartContext, app_start, qr_start, respond_start, start_answer,
}
use evaggregator.Driver.Sessions.{DriverSessions, dispatch_remote_start, qr}
use evaggregator.Driver.Certificates.{PlugAndChargeError, malformed_certificate}
use evaggregator.Driver.Tags.{driver_tag}
use evaggregator.Ocpp.Commands.{CommandOutcome, Dispatch, accepted}
use evaggregator.Ocpp.Presence.{PresenceState, ocpp16, online}
use evaggregator.Driver.Starting.Qr.{caller_signs_qr}

abbrev plain : QrCodec QrFields
plain = record { encode = λ f. f; decode = λ f. fields f }

abbrev toy_mac : ℕ → QrFields → ℕ
toy_mac secret f = secret + f.charger_id

abbrev no_certificate : ℕ → Result PlugAndChargeError ℕ
no_certificate pem = err malformed_certificate

abbrev no_payment : ℕ → Option ℕ
no_payment driver = none

abbrev accept_all : Dispatch → CommandOutcome
accept_all d = record { status = accepted; reply = none }

abbrev charger_three : PresenceState
charger_three = record {
  charger_id = 3;
  tenant_id = 1;
  status = online;
  node_id = 5;
  protocol_version = ocpp16;
  connected_at = 10;
  last_seen = 20;
}

abbrev context : StartContext
context = record {
  vehicles = [];
  macs = [];
  presence = (3, charger_three) ∷ [];
  fresh = record { command_id = 1; session_id = 2; now = 100; responded = 101 };
  tenant_id = 1;
}

abbrev idle : DriverSessions
idle = record { bindings = []; owner = []; rewards = []; history = []; command_log = [] }

abbrev from_app : StartAnswer × DriverSessions
from_app =
    respond_start plain toy_mac (λ n. some n) no_certificate no_payment accept_all 30
      (app_start 3 1 7) context idle

starts-Verdict_example :
    Verdict plain toy_mac
      (λ n. some n)
      no_certificate
      no_payment
      accept_all
      30
      (app_start 3 1 7)
      context
      idle
      from_app
starts-Verdict_example =
    starts-Verdict plain toy_mac (λ n. some n) no_certificate no_payment accept_all 30
      (app_start 3 1 7) context idle

caller_signs_qr_example :
    respond_start plain toy_mac
      (λ n. some n)
      no_certificate
      no_payment
      accept_all
      30
      (qr_start (sign_qr_token plain toy_mac 3 1 666 300 90) 7 666)
      context
      idle
    ≡ start_answer (
        dispatch_remote_start accept_all 30 context.presence no_payment context.fresh
          (record {
            driver_id = 7;
            tenant_id = 1;
            charger_id = 3;
            connector_id = some 1;
            id_tag = driver_tag 7;
            auth_method = qr;
          })
          idle)
caller_signs_qr_example =
    caller_signs_qr plain toy_mac (λ n. some n) no_certificate no_payment accept_all 30 666 3 1 300
      90 7 7 context idle (λ f. refl) refl (omega arith)
