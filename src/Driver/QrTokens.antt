-- ===== src/Driver/QrTokens.antt =====
-- backend/src/evagg/charging_auth/qr_token.py: signed QR codes. JSON with base64 is a parameter, and so
-- is HMAC-SHA256; a token stands for what is before and after its first dot.
pub mod Signatures
mod Examples
use evaggregator.Base.{Result, err, if◌then◌else◌, ltb, nat_eq, ok, ℕ, ◌+◌, ◌==◌}

pub data QrTokenError : Type 0 where
  malformed_token tampered_token malformed_payload expired_token : QrTokenError
  -- any other exception, which is no `QrTokenError`
  raised : QrTokenError

pub record QrTokenPayload : Type 0 where
  pub charger_id : ℕ
  pub connector_id : ℕ

-- The object that is signed.
pub record QrFields : Type 0 where
  pub charger_id : ℕ
  pub connector_id : ℕ
  pub issued_at : ℕ
  pub ttl : ℕ

-- What a payload decodes to: an object with the four fields, or with the times only; anything else that
-- is JSON, whose reading raises a KeyError or a TypeError; or no JSON.
pub data QrContent : Type 0 where
  fields : QrFields → QrContent
  -- time of issue and life time, without the charger or the connector
  timed : ℕ → ℕ → QrContent
  other_json no_json : QrContent

-- `B` are the texts of the codec, which are ASCII. A token with a dot and any other character makes
-- `encode` or `compare_digest` raise.
pub data QrToken (B : Type 0) : Type 0 where
  without_dot : ℕ → QrToken B
  dotted : B → ℕ → QrToken B
  not_ascii : ℕ → QrToken B

pub record QrCodec (B : Type 0) : Type 0 where
  pub encode : QrFields → B
  pub decode : B → QrContent

module _ {B : Type 0} (codec : QrCodec B) (mac : ℕ → B → ℕ) where
  -- charger, connector, secret, life time and time of issue
  unfoldable pub sign_qr_token : ℕ → ℕ → ℕ → ℕ → ℕ → QrToken B
  sign_qr_token charger connector secret ttl issued_at =
      let payload = codec.encode (record {
        charger_id = charger;
        connector_id = connector;
        issued_at = issued_at;
        ttl = ttl;
      }) in
      dotted payload (mac secret payload)

  abbrev pub check_fields : ℕ → QrContent → Result QrTokenError QrTokenPayload
  check_fields now no_json = err malformed_payload
  check_fields now other_json = err raised
  check_fields now (timed issued_at ttl) =
      if ltb (issued_at + ttl) now then err expired_token else err raised
  check_fields now (fields f) =
      if ltb (f.issued_at + f.ttl) now
      then err expired_token
      else ok (record { charger_id = f.charger_id; connector_id = f.connector_id })

  unfoldable pub verify_qr_token : QrToken B → ℕ → ℕ → Result QrTokenError QrTokenPayload
  verify_qr_token (without_dot text) secret now = err malformed_token
  verify_qr_token (not_ascii n) secret now = err raised
  verify_qr_token (dotted payload signature) secret now =
      if mac secret payload == signature
      then check_fields now (codec.decode payload)
      else err tampered_token
