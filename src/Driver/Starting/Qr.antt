-- ===== src/Driver/Starting/Qr.antt =====
-- What the signature of a QR code is worth at the route.
use evaggregator.Driver.Starting.{StartContext, qr_start, respond_start, start_answer, with_driver}
use evaggregator.Driver.QrTokens.{QrCodec, QrFields, fields, sign_qr_token}
use evaggregator.Base.{Option, Result, refl, some, ℕ, ◌+◌, ◌≡◌, ◌≤◌}
use evaggregator.Driver.Sessions.{DriverSessions, dispatch_remote_start, qr, start_via_qr}
use evaggregator.Driver.Certificates.{PlugAndChargeError}
use evaggregator.Driver.Tags.{driver_tag}
use evaggregator.Ocpp.Commands.{CommandOutcome, Dispatch}
use evaggregator.Driver.QrTokens.Signatures.{qr_codes_signed}

-- The route checks a code with the secret that its caller sends: for any secret of the caller's choice, a
-- code that the caller has signed with it, for any charger and connector, starts a session there in
-- the same way as a genuine code does.
pub caller_signs_qr :
    {B : Type 0} (codec : QrCodec B) (mac : ℕ → B → ℕ) (parse : ℕ → Option ℕ)
    (resolve : ℕ → Result PlugAndChargeError ℕ) (payment_of : ℕ → Option ℕ)
    (send : Dispatch → CommandOutcome) (timeout : ℕ)
    (secret charger connector ttl issued_at text driver : ℕ) (c : StartContext) (s : DriverSessions)
    → ((f : QrFields) → codec.decode (codec.encode f) ≡ fields f)
    → parse text ≡ some driver
    → c.fresh.now ≤ issued_at + ttl
    → let token = sign_qr_token codec mac charger connector secret ttl issued_at in
      respond_start codec mac parse resolve payment_of send timeout (qr_start token text secret) c s
      ≡ start_answer (
          dispatch_remote_start send timeout c.presence payment_of c.fresh
            (record {
              driver_id = driver;
              tenant_id = c.tenant_id;
              charger_id = charger;
              connector_id = some connector;
              id_tag = driver_tag driver;
              auth_method = qr;
            })
            s)
unfolding respond_start start_via_qr
caller_signs_qr codec mac parse resolve payment_of send timeout secret charger connector ttl
      issued_at text driver c s back parsed live =
    let valid =
      (qr_codes_signed codec mac charger connector secret ttl issued_at c.fresh.now back).0 live in
    rw (parsed, valid, respond_start, with_driver, start_via_qr) refl
