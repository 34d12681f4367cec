-- ===== src/Gateway/AccessTokens/Examples.antt =====
-- Tokens that carry their claims in the clear.
use evaggregator.Gateway.AccessTokens.{
  Claims, Jwt, TokenSettings, bearer, create_access_token, invalid_or_expired,
  require_driver_identity,
}
use evaggregator.Gateway.AccessTokens.Identity.{IsJwt, token_identifies}
use evaggregator.Base.{
  Bool, arith, err, if◌then◌else◌, leb, ltb, none, ok, refl, some, ℕ, ◌&&◌, ◌<◌, ◌≡◌, ◌≤◌,
}

abbrev alive : ℕ → Claims → Bool
alive now c = leb c.issued_at now && ltb now c.expires_at

abbrev plain : Jwt Claims
plain = record {
  encode = λ c secret. c;
  decode = λ t secret now. if alive now t then some t else none;
}

plain-IsJwt : IsJwt plain
plain-IsJwt = record {
  accepts = λ c secret now begun live. ground arith;
  expires = λ c secret now over. ground arith;
}

abbrev fifteen_minutes : TokenSettings
fifteen_minutes = record { signing_secret = 5; access_token_ttl_seconds = 900 }

token_identifies_example :
    let token = create_access_token plain fifteen_minutes 7 2 none 1_000 11 in
    let found = require_driver_identity plain fifteen_minutes (λ n. some n) (bearer token) 1_200 in
    (1_200 < 1_900 → found ≡ ok (record { driver_id = 7; tenant_id = 2 }))
    × (1_900 ≤ 1_200 → found ≡ err invalid_or_expired)
token_identifies_example =
    token_identifies plain fifteen_minutes (λ n. some n) (λ n. n) 7 2 none 1_000 11 1_200
      plain-IsJwt (λ n. refl) (omega arith)
