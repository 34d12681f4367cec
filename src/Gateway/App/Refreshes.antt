-- ===== src/Gateway/App/Refreshes.antt =====
-- What opening and refreshing a session lead to.
use evaggregator.Gateway.AccessTokens.{
  Jwt, Pkce, compute_code_challenge, create_access_token, verify_code_verifier,
}
use evaggregator.Gateway.App.{
  Draw, GatewayError, GatewaySettings, GatewayState, PendingAuthorization, TokenResponse,
  authorization_code, consume, enforce_rate_limit, invalid_code, issue_refresh, open_session,
  pkce_failed, rate_limited, redeem_code, refresh_refused, refresh_session, refresh_token_grant,
  rotate_token, server_error, token,
}
use evaggregator.Base.{
  Bool, Bool-cases, Option-cases, Result, arith, err, false, inl, inr, nat_eq, none, ok, some, true,
  ℕ, ◌<◌, ◌==◌, ◌≡◌, ◌≢◌,
}
use evaggregator.Gateway.RefreshTokens.{RefreshToken, is_revoked, issue, reused, rotate}
use evaggregator.Gateway.RateLimit.{allow}
use evaggregator.Gateway.RefreshTokens.Replay.{replay_revokes_family, rotate-issue}
use evaggregator.Base.Dict.{lookup}

module _ {T : Type 0} (jwt : Jwt T) (pkce : Pkce) (c : GatewaySettings) where
  -- Whether the limiter lets a call of the tenant through.
  abbrev pub within_limit : ℕ → Draw → GatewayState → Bool
  within_limit tenant d s =
      (allow tenant c.requests_per_window c.window_seconds d.clock s.limiter).0

  -- The tokens of a session for the subject and the tenant of a code.
  abbrev pub tokens_of : PendingAuthorization → Draw → TokenResponse T
  tokens_of p d = record {
    access_token = create_access_token jwt c.tokens p.subject p.tenant_id none d.now d.jti;
    refresh_token = d.value;
  }

  -- The code is pending, the verifier is the one behind its challenge, and its tenant is within the
  -- limit.
  abbrev pub IsGranted : ℕ → ℕ → Draw → GatewayState → PendingAuthorization → Type 0
  IsGranted code v d s p =
      (lookup code s.codes ≡ some p)
      × (pkce.digest v ≡ some p.code_challenge)
      × (pkce.is_ascii p.code_challenge ≡ true)
      × (within_limit p.tenant_id d s ≡ true)

  -- What a pending code is answered with otherwise.
  abbrev pub Refused :
      ℕ
      → Draw
      → GatewayState
      → PendingAuthorization
      → Result GatewayError (TokenResponse T)
      → Type 0
  Refused v d s p r =
      (pkce.digest v ≡ none → r ≡ err server_error)
      × (pkce.is_ascii p.code_challenge ≡ false → r ≡ err server_error)
      × ((x : ℕ)
          → pkce.digest v ≡ some x
          → pkce.is_ascii p.code_challenge ≡ true
          → (x ≢ p.code_challenge → r ≡ err pkce_failed)
            × (x ≡ p.code_challenge → within_limit p.tenant_id d s ≡ false → r ≡ err rate_limited))

  granted :
      (code v : ℕ) (d : Draw) (s : GatewayState) (p : PendingAuthorization)
      → 0 < code
      → 0 < v
      → IsGranted code v d s p
      → (token jwt pkce c (authorization_code (some code) (some v)) d s).0 ≡ ok (tokens_of p d)
  unfolding token redeem_code consume open_session enforce_rate_limit issue_refresh issue
      verify_code_verifier compute_code_challenge
  granted code v d s p filled₀ filled₁ h = ground (arith, h)

  rotated_once :
      (code v n : ℕ) (d : Draw) (s : GatewayState) (p : PendingAuthorization)
      → 0 < code
      → 0 < v
      → IsGranted code v d s p
      → is_revoked d.family s.refresh_tokens ≡ false
      → (rotate d.value n
          (token jwt pkce c (authorization_code (some code) (some v)) d s).1.refresh_tokens).0
        ≡ ok (record {
          token = n;
          family_id = d.family;
          subject = p.subject;
          tenant_id = p.tenant_id;
        })
  unfolding token redeem_code consume open_session enforce_rate_limit issue_refresh issue
      verify_code_verifier compute_code_challenge
  rotated_once code v n d s p filled₀ filled₁ h unrevoked =
      ground (arith, h, rotate-issue d.family d.value p.subject p.tenant_id n s.refresh_tokens)

  pending-Refused :
      (code v : ℕ) (d : Draw) (s : GatewayState) (p : PendingAuthorization)
      → 0 < code
      → 0 < v
      → lookup code s.codes ≡ some p
      → Refused v d s p (token jwt pkce c (authorization_code (some code) (some v)) d s).0
  unfolding token redeem_code consume open_session enforce_rate_limit issue_refresh
      verify_code_verifier compute_code_challenge
  pending-Refused code v d s p filled₀ filled₁ pending = (
    λ h. ground (arith, pending, h),
    λ h. elim (Option-cases (pkce.digest v)) [
      | inl e ↦ ground (arith, pending, h, e)
      | inr (x, e) ↦ ground (arith, pending, h, e)
    ],
    λ x e ascii. (
      λ wrong. ground (arith, pending, e, ascii, wrong),
      λ right limited. ground (arith, pending, e, ascii, right, limited),
    ),
  )

  not_pending :
      (code v : ℕ) (d : Draw) (s : GatewayState)
      → 0 < code
      → 0 < v
      → lookup code s.codes ≡ none
      → (token jwt pkce c (authorization_code (some code) (some v)) d s).0 ≡ err invalid_code
  unfolding token redeem_code consume
  not_pending code v d s filled₀ filled₁ h = ground (arith, h)

  only-IsGranted :
      (code v : ℕ) (d : Draw) (s : GatewayState) (x : TokenResponse T)
      → 0 < code
      → 0 < v
      → (token jwt pkce c (authorization_code (some code) (some v)) d s).0 ≡ ok x
      → (p : PendingAuthorization) × IsGranted code v d s p
  only-IsGranted code v d s x filled₀ filled₁ h = elim (Option-cases (lookup code s.codes)) [
    | inl e ↦ ground (arith, h, not_pending code v d s filled₀ filled₁ e)
    | inr (p, e) ↦
        let r = pending-Refused code v d s p filled₀ filled₁ e in
        elim (Option-cases (pkce.digest v)) [
          | inl n ↦ ground (arith, h, r.0 n)
          | inr (y, f) ↦ elim (Bool-cases (pkce.is_ascii p.code_challenge)) [
            | inr n ↦ ground (arith, h, r.1 n)
            | inl a ↦ elim (Bool-cases (y == p.code_challenge)) [
              | inr n ↦ ground (arith, h, n, (r.2 y f a).0)
              | inl same ↦ elim (Bool-cases (within_limit p.tenant_id d s)) [
                | inr n ↦ ground (arith, h, n, same, (r.2 y f a).1)
                | inl w ↦ (p, (e, ground (arith, f, same), a, w))
              ]
            ]
          ]
        ]
  ]

  -- A code that is presented with a verifier yields tokens exactly if it is pending, the verifier is the
  -- one behind its challenge, and its tenant is within the limit. They are an access token for the
  -- subject and the tenant of the code, and a refresh token that, unless its family was revoked before, can
  -- be rotated at once, for the same subject and tenant. A code that is not pending is refused as invalid;
  -- a pending one as a failure of PKCE with a wrong verifier, and by the rate limit with the right one; and a
  -- verifier or a challenge that is not ASCII is a server error.
  pub code_grant :
      (code v : ℕ) (d : Draw) (s : GatewayState)
      → 0 < code
      → 0 < v
      → let q = authorization_code (some code) (some v) in
        let (r, u) = token jwt pkce c q d s in
        ((x : TokenResponse T) → r ≡ ok x → (p : PendingAuthorization) × IsGranted code v d s p)
        × ((p : PendingAuthorization)
            → IsGranted code v d s p
            → (r ≡ ok (tokens_of p d))
              × ((n : ℕ)
                  → is_revoked d.family s.refresh_tokens ≡ false
                  → (rotate d.value n u.refresh_tokens).0
                    ≡ ok (record {
                      token = n;
                      family_id = d.family;
                      subject = p.subject;
                      tenant_id = p.tenant_id;
                    })))
        × (lookup code s.codes ≡ none → r ≡ err invalid_code)
        × ((p : PendingAuthorization) → lookup code s.codes ≡ some p → Refused v d s p r)
  code_grant code v d s filled₀ filled₁ = (
    λ x h. only-IsGranted code v d s x filled₀ filled₁ h,
    λ p h. (
      granted code v d s p filled₀ filled₁ h,
      λ n unrevoked. rotated_once code v n d s p filled₀ filled₁ h unrevoked,
    ),
    λ h. not_pending code v d s filled₀ filled₁ h,
    λ p h. pending-Refused code v d s p filled₀ filled₁ h,
  )

  -- A refresh that meets the rate limit has used its token up: it is refused with 429, no new token is
  -- handed out, and the same token, once presented again under any limit, is refused as reused.
  pub limited_refresh :
      (t : ℕ) (d e : Draw) (s : GatewayState) {r : RefreshToken}
      → 0 < t
      → d.value ≢ t
      → (rotate t d.value s.refresh_tokens).0 ≡ ok r
      → within_limit r.tenant_id d s ≡ false
      → let q = refresh_token_grant (some t) in
        let u = (token jwt pkce c q d s).1 in
        ((token jwt pkce c q d s).0 ≡ err rate_limited)
        × ((token jwt pkce c q e u).0 ≡ err (refresh_refused reused))
  unfolding token refresh_session rotate_token enforce_rate_limit
  limited_refresh t d e s filled₀ fresh rotated limited = ground (
    arith,
    rotated,
    limited,
    replay_revokes_family t d.value e.value e.value s.refresh_tokens fresh rotated,
  )
