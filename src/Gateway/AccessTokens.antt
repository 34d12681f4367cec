-- ===== src/Gateway/AccessTokens.antt =====
-- backend/src/evagg/gateway/jwt_tokens.py, pkce.py and identity/driver_session.py: signed access tokens
-- and who they identify. PyJWT and SHA-256 are parameters, and so is the UUID parser.
pub mod Identity
mod Examples
use evaggregator.Base.{
  Bool, Option, Result, err, if◌then◌else◌, nat_eq, none, ok, some, ℕ, ◌+◌, ◌==◌,
}

pub record Claims : Type 0 where
  pub subject : Option ℕ
  pub tenant_id : Option ℕ
  pub issued_at : ℕ
  pub expires_at : ℕ
  pub token_id : ℕ

pub record TokenSettings : Type 0 where
  pub signing_secret : ℕ
  pub access_token_ttl_seconds : ℕ

-- PyJWT: `encode claims secret`, and `decode token secret` at the time of the third argument, which
-- is `none` for any token that it refuses.
pub record Jwt (T : Type 0) : Type 0 where
  pub encode : Claims → ℕ → T
  pub decode : T → ℕ → ℕ → Option Claims

pub data TokenError : Type 0 where
  missing_bearer invalid_or_expired malformed_subject : TokenError

pub record DriverIdentity : Type 0 where
  pub driver_id : ℕ
  pub tenant_id : ℕ

-- The `Authorization` header: absent, of another scheme, or a bearer token.
pub data Authorization (T : Type 0) : Type 0 where
  no_authorization other_scheme : Authorization T
  bearer : T → Authorization T

abbrev pub ttl_or : ℕ → Option ℕ → ℕ
ttl_or d none = d
ttl_or d (some t) = t

module _ {T : Type 0} (jwt : Jwt T) (c : TokenSettings) where
  -- The subject and the tenant as text, the life time, the clock, and the `jti`.
  unfoldable pub create_access_token : ℕ → ℕ → Option ℕ → ℕ → ℕ → T
  create_access_token subject tenant ttl now jti =
      jwt.encode
        (record {
          subject = some subject;
          tenant_id = some tenant;
          issued_at = now;
          expires_at = now + ttl_or c.access_token_ttl_seconds ttl;
          token_id = jti;
        })
        c.signing_secret

  unfoldable pub decode_access_token : T → ℕ → Result TokenError Claims
  decode_access_token token now = elim (jwt.decode token c.signing_secret now) [
    | none ↦ err invalid_or_expired
    | some claims ↦ ok claims
  ]

  -- `uuid.UUID(payload["sub"])`: a missing key and a text that is no UUID are refused alike.
  abbrev pub parse_claim : (ℕ → Option ℕ) → Option ℕ → Option ℕ
  parse_claim parse none = none
  parse_claim parse (some text) = parse text

  abbrev pub identity_of : Option ℕ → Option ℕ → Result TokenError DriverIdentity
  identity_of none t = err malformed_subject
  identity_of (some d) none = err malformed_subject
  identity_of (some d) (some t) = ok (record { driver_id = d; tenant_id = t })

  abbrev pub identity_in :
      (ℕ → Option ℕ) → Result TokenError Claims → Result TokenError DriverIdentity
  identity_in parse (err e) = err e
  identity_in parse (ok claims) =
      identity_of (parse_claim parse claims.subject) (parse_claim parse claims.tenant_id)

  unfoldable pub require_driver_identity :
      (ℕ → Option ℕ) → Authorization T → ℕ → Result TokenError DriverIdentity
  unfolding decode_access_token
  require_driver_identity parse no_authorization now = err missing_bearer
  require_driver_identity parse other_scheme now = err missing_bearer
  require_driver_identity parse (bearer token) now =
      identity_in parse (decode_access_token token now)

abbrev pub driver_of : Result TokenError DriverIdentity → Result TokenError ℕ
driver_of (err e) = err e
driver_of (ok i) = ok i.driver_id

-- The S256 transformation of a verifier, which is `none` for one that is not ASCII, where `encode`
-- raises, and whether a text is ASCII, without which `compare_digest` raises.
pub record Pkce : Type 0 where
  pub digest : ℕ → Option ℕ
  pub is_ascii : ℕ → Bool

unfoldable pub compute_code_challenge : Pkce → ℕ → Option ℕ
compute_code_challenge pkce verifier = pkce.digest verifier

-- `none` is an exception.
unfoldable pub verify_code_verifier : Pkce → ℕ → ℕ → Option Bool
unfolding compute_code_challenge
verify_code_verifier pkce verifier challenge = elim (compute_code_challenge pkce verifier) [
  | none ↦ none
  | some expected ↦ if pkce.is_ascii challenge then some (expected == challenge) else none
]
