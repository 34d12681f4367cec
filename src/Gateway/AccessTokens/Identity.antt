-- ===== src/Gateway/AccessTokens/Identity.antt =====
-- What an access token identifies, and for how long.
use evaggregator.Gateway.AccessTokens.{
  Claims, Jwt, TokenSettings, bearer, create_access_token, decode_access_token, invalid_or_expired,
  require_driver_identity, ttl_or,
}
use evaggregator.Base.{Option, err, none, ok, refl, some, ℕ, ◌+◌, ◌<◌, ◌≡◌, ◌≤◌}

-- PyJWT's documented behaviour on its own tokens: accepted with their claims from `iat` on and before
-- `exp`, refused from `exp` on.
pub record IsJwt {T : Type 0} (jwt : Jwt T) : Type 0 where
  pub accepts :
      (c : Claims) (secret now : ℕ)
      → c.issued_at ≤ now
      → now < c.expires_at
      → jwt.decode (jwt.encode c secret) secret now ≡ some c
  pub expires :
      (c : Claims) (secret now : ℕ)
      → c.expires_at ≤ now
      → jwt.decode (jwt.encode c secret) secret now ≡ none

-- A token that is created for a driver of a tenant identifies, as a bearer token, that driver of that
-- tenant until its life time is over, and is refused as expired from then on.
pub token_identifies :
    {T : Type 0} (jwt : Jwt T) (c : TokenSettings) (parse : ℕ → Option ℕ) (print : ℕ → ℕ)
    (driver tenant : ℕ) (ttl : Option ℕ) (issued jti now : ℕ)
    → IsJwt jwt
    → ((n : ℕ) → parse (print n) ≡ some n)
    → issued ≤ now
    → let token = create_access_token jwt c (print driver) (print tenant) ttl issued jti in
      let found = require_driver_identity jwt c parse (bearer token) now in
      (now < issued + ttl_or c.access_token_ttl_seconds ttl
        → found ≡ ok (record { driver_id = driver; tenant_id = tenant }))
      × (issued + ttl_or c.access_token_ttl_seconds ttl ≤ now → found ≡ err invalid_or_expired)
unfolding create_access_token decode_access_token require_driver_identity
token_identifies jwt c parse print driver tenant ttl issued jti now laws back begun =
    let claims : Claims = record {
      subject = some (print driver);
      tenant_id = some (print tenant);
      issued_at = issued;
      expires_at = issued + ttl_or c.access_token_ttl_seconds ttl;
      token_id = jti;
    } in
    (
      λ live.
          rw
            (
              laws.accepts claims c.signing_secret now begun live,
              back driver,
              back tenant,
              require_driver_identity,
              decode_access_token,
              create_access_token,
            )
            refl,
      λ over.
          rw
            (
              laws.expires claims c.signing_secret now over,
              require_driver_identity,
              decode_access_token,
              create_access_token,
            )
            refl,
    )
