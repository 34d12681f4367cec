-- ===== src/Gateway/App/Examples.antt =====
-- A gateway with one pending code, and one with a session whose tenant has used its limit up.
use evaggregator.Gateway.RefreshTokens.{empty, is_revoked, issue, reused, rotate}
use evaggregator.Gateway.App.Refreshes.{IsGranted, Refused, code_grant, limited_refresh, tokens_of}
use evaggregator.Gateway.AccessTokens.{Jwt, Pkce}
use evaggregator.Gateway.App.{
  Draw, GatewayError, GatewaySettings, GatewayState, PendingAuthorization, TokenResponse,
  authorization_code, invalid_code, rate_limited, refresh_refused, refresh_token_grant, token,
}
use evaggregator.Base.{
  Option, Result, [], arith, err, false, nat_eq, none, ok, refl, some, true, ℕ, ◌+◌, ◌∷◌, ◌≡◌,
}
use evaggregator.Base.Dict.{lookup}
use evaggregator.Gateway.RateLimit.{allow, new_limiter}
use evaggregator.Gateway.App.Codes.{code_used_once, start}

abbrev opaque_tokens : Jwt ℕ
opaque_tokens = record { encode = λ c secret. c.token_id; decode = λ t secret now. none }

abbrev double : Pkce
double = record { digest = λ v. some (v + v); is_ascii = λ t. true }

abbrev one_per_minute : GatewaySettings
one_per_minute = record {
  tokens = record { signing_secret = 5; access_token_ttl_seconds = 900 };
  requests_per_window = 1;
  window_seconds = 60;
}

abbrev draw : ℕ → Draw
draw n = record { now = 1_000; clock = 100; jti = n; family = n; value = n }

abbrev pending_code : PendingAuthorization
pending_code = record { code_challenge = 84; subject = 7; tenant_id = 2 }

abbrev one_code : GatewayState
one_code = record { limiter = new_limiter; refresh_tokens = empty; codes = (9, pending_code) ∷ [] }

-- The code was presented with a wrong verifier.
abbrev spent : GatewayState
spent =
    (token opaque_tokens double one_per_minute (authorization_code (some 9) (some 41)) (draw 31)
      one_code).1

code_used_once_example :
    token opaque_tokens double one_per_minute
      (authorization_code (some 9) (some 42))
      (draw 32)
      spent
    ≡ (err invalid_code, spent)
code_used_once_example =
    code_used_once opaque_tokens double one_per_minute 9 41 42 (draw 31) (draw 32) one_code
      {u = spent} (omega arith) (omega arith) (omega arith) start

abbrev granted_code : Result GatewayError (TokenResponse ℕ) × GatewayState
granted_code =
    token opaque_tokens double one_per_minute (authorization_code (some 9) (some 42)) (draw 31)
      one_code

code_grant_example :
    ((x : TokenResponse ℕ)
      → granted_code.0 ≡ ok x
      → (p : PendingAuthorization) × IsGranted opaque_tokens double one_per_minute 9 42
          (draw 31)
          one_code
          p)
    × ((p : PendingAuthorization)
        → IsGranted opaque_tokens double one_per_minute 9 42 (draw 31) one_code p
        → (granted_code.0 ≡ ok (tokens_of opaque_tokens double one_per_minute p (draw 31)))
          × ((n : ℕ)
              → is_revoked 31 empty ≡ false
              → (rotate 31 n granted_code.1.refresh_tokens).0
                ≡ ok (record {
                  token = n;
                  family_id = 31;
                  subject = p.subject;
                  tenant_id = p.tenant_id;
                })))
    × (◌≡◌ {A = Option PendingAuthorization} (lookup 9 one_code.codes) none
        → granted_code.0 ≡ err invalid_code)
    × ((p : PendingAuthorization)
        → lookup 9 one_code.codes ≡ some p
        → Refused opaque_tokens double one_per_minute 42 (draw 31) one_code p granted_code.0)
code_grant_example =
    code_grant opaque_tokens double one_per_minute 9 42 (draw 31) one_code (omega arith)
      (omega arith)

-- The second session of the tenant within the window, and its refresh token 50.
abbrev busy : GatewayState
unfolding issue
busy = record {
  limiter = record { windows = (2, (1, 90)) ∷ [] };
  refresh_tokens = (issue 6 50 7 2 empty).1;
  codes = [];
}

limited_refresh_example :
    let q = refresh_token_grant (some 50) in
    let u = (token opaque_tokens double one_per_minute q (draw 51) busy).1 in
    ((token opaque_tokens double one_per_minute q (draw 51) busy).0 ≡ err rate_limited)
    × ((token opaque_tokens double one_per_minute q (draw 52) u).0 ≡ err (refresh_refused reused))
unfolding issue rotate allow
limited_refresh_example =
    limited_refresh opaque_tokens double one_per_minute 50 (draw 51) (draw 52) busy
      {r = record { token = 51; family_id = 6; subject = 7; tenant_id = 2 }} (omega arith)
      (omega arith) refl refl
