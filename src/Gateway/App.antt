-- ===== src/Gateway/App.antt =====
-- backend/src/evagg/gateway/app.py: authorization codes with PKCE, the token endpoint and the SSO
-- callback, over the stores of refresh tokens and of the rate limiter. Random values and the clock's
-- readings are arguments; the SSO providers, PyJWT and the digest of PKCE are parameters. A limiter's
-- key is the tenant, since its prefix is always the same.
pub mod Codes
pub mod Refreshes
mod Examples
use evaggregator.Gateway.AccessTokens.{
  Jwt, Pkce, TokenSettings, create_access_token, verify_code_verifier,
}
use evaggregator.Base.{
  Bool, Exec, Option, Result, err, false, if◌then◌else◌, nat_eq, none, not, ok, pure, raise, some,
  true, ℕ, ◌&&◌, ◌==◌, ◌>>=◌, ◌>>◌,
}
use evaggregator.Gateway.RefreshTokens.{
  RefreshToken, RefreshTokenError, RefreshTokenStore, issue, rotate,
}
use evaggregator.Gateway.RateLimit.{RateLimiter, allow}
use evaggregator.Base.Dict.{Dict, erase, insert, lookup}

pub record PendingAuthorization : Type 0 where
  pub code_challenge : ℕ
  pub subject : ℕ
  pub tenant_id : ℕ

pub record GatewayState : Type 0 where
  pub limiter : RateLimiter
  pub refresh_tokens : RefreshTokenStore
  pub codes : Dict ℕ PendingAuthorization

pub data GatewayError : Type 0 where
  code_and_verifier_required invalid_code pkce_failed rate_limited : GatewayError
  -- an exception that no handler catches
  server_error : GatewayError
  refresh_token_required unsupported_grant_type unknown_provider : GatewayError
  refresh_refused : RefreshTokenError → GatewayError
  sso_refused : ℕ → GatewayError

-- The status of the `HTTPException`.
pub http_status : GatewayError → ℕ
http_status code_and_verifier_required = 400
http_status invalid_code = 400
http_status pkce_failed = 400
http_status server_error = 500
http_status rate_limited = 429
http_status refresh_token_required = 400
http_status unsupported_grant_type = 400
http_status unknown_provider = 404
http_status (refresh_refused e) = 401
http_status (sso_refused e) = 401

-- `TokenRequest`, by its grant type.
pub data TokenRequest : Type 0 where
  authorization_code : Option ℕ → Option ℕ → TokenRequest
  refresh_token_grant : Option ℕ → TokenRequest
  other_grant : ℕ → TokenRequest

pub record TokenResponse (T : Type 0) : Type 0 where
  pub access_token : T
  pub refresh_token : ℕ

-- What a request reads from outside: the clocks, and the values that it may draw at random.
pub record Draw : Type 0 where
  pub now : ℕ
  pub clock : ℕ
  pub jti : ℕ
  pub family : ℕ
  pub value : ℕ

pub record GatewaySettings : Type 0 where
  pub tokens : TokenSettings
  pub requests_per_window : ℕ
  pub window_seconds : ℕ

-- `create`, with the random code; it answers POST /oauth/authorize.
unfoldable pub authorize : ℕ → ℕ → ℕ → ℕ → GatewayState → ℕ × GatewayState
authorize code subject tenant challenge s = (
  code,
  record s {
    codes =
        insert code (record { code_challenge = challenge; subject = subject; tenant_id = tenant })
          s.codes;
  },
)

-- A code is taken out of the store before anything else is checked.
unfoldable pub consume : ℕ → Exec GatewayError GatewayState PendingAuthorization
consume code s = elim (lookup code s.codes) [
  | none ↦ (err invalid_code, s)
  | some p ↦ (ok p, record s { codes = erase code s.codes })
]

-- A field that the request leaves out, or leaves empty, is falsy.
abbrev pub filled : Option ℕ → Bool
filled none = false
filled (some x) = not (x == 0)

abbrev pub text : Option ℕ → ℕ
text none = 0
text (some x) = x

module _ {T : Type 0} (jwt : Jwt T) (pkce : Pkce) (c : GatewaySettings) where
  -- A call that is refused is counted as well.
  unfoldable pub enforce_rate_limit : ℕ → Draw → Exec GatewayError GatewayState (Unit {0})
  enforce_rate_limit tenant d s =
      let (allowed, limiter') =
        allow tenant c.requests_per_window c.window_seconds d.clock s.limiter in
      (if allowed then ok tt else err rate_limited, record s { limiter = limiter' })

  unfoldable pub issue_refresh : ℕ → ℕ → Draw → Exec GatewayError GatewayState RefreshToken
  issue_refresh subject tenant d s =
      let (r, tokens') = issue d.family d.value subject tenant s.refresh_tokens in
      (ok r, record s { refresh_tokens = tokens' })

  -- Both tokens of a session, if the tenant is under its limit.
  unfoldable pub open_session : ℕ → ℕ → Draw → Exec GatewayError GatewayState (TokenResponse T)
  unfolding enforce_rate_limit issue_refresh
  open_session subject tenant d = do
    enforce_rate_limit tenant d
    r ← issue_refresh subject tenant d
    pure (record {
      access_token = create_access_token jwt c.tokens subject tenant none d.now d.jti;
      refresh_token = r.token;
    })

  abbrev pub check_verifier : Option Bool → Exec GatewayError GatewayState (Unit {0})
  check_verifier none s = (err server_error, s)
  check_verifier (some false) s = (err pkce_failed, s)
  check_verifier (some true) s = (ok tt, s)

  unfoldable pub redeem_code : ℕ → ℕ → Draw → Exec GatewayError GatewayState (TokenResponse T)
  unfolding consume open_session
  redeem_code code verifier d = do
    p ← consume code
    check_verifier (verify_code_verifier pkce verifier p.code_challenge)
    open_session p.subject p.tenant_id d

  abbrev pub refused_as : Result RefreshTokenError RefreshToken → Result GatewayError RefreshToken
  refused_as (err e) = err (refresh_refused e)
  refused_as (ok r) = ok r

  unfoldable pub rotate_token : ℕ → Draw → Exec GatewayError GatewayState RefreshToken
  rotate_token token d s =
      let (r, tokens') = rotate token d.value s.refresh_tokens in
      (refused_as r, record s { refresh_tokens = tokens' })

  -- The token is rotated before the limit is enforced.
  unfoldable pub refresh_session : ℕ → Draw → Exec GatewayError GatewayState (TokenResponse T)
  unfolding rotate_token enforce_rate_limit
  refresh_session token d = do
    r ← rotate_token token d
    enforce_rate_limit r.tenant_id d
    pure (record {
      access_token = create_access_token jwt c.tokens r.subject r.tenant_id none d.now d.jti;
      refresh_token = r.token;
    })

  unfoldable pub token : TokenRequest → Draw → Exec GatewayError GatewayState (TokenResponse T)
  unfolding redeem_code refresh_session
  token (authorization_code code verifier) d =
      if filled code && filled verifier
      then redeem_code (text code) (text verifier) d
      else raise code_and_verifier_required
  token (refresh_token_grant t) d =
      if filled t then refresh_session (text t) d else raise refresh_token_required
  token (other_grant g) d = raise unsupported_grant_type

  -- `providers` are the configured ones: what each says of a credential, the subject or an error.
  unfoldable pub sso_callback :
      Dict ℕ (ℕ → Result ℕ ℕ) → ℕ → ℕ → ℕ → Draw → Exec GatewayError GatewayState (TokenResponse T)
  unfolding open_session
  sso_callback providers provider tenant credential d s = elim (lookup provider providers) [
    | none ↦ (err unknown_provider, s)
    | some authenticate ↦ elim (authenticate credential) [
      | err e ↦ (err (sso_refused e), s)
      | ok subject ↦ open_session subject tenant d s
    ]
  ]
