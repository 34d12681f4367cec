-- ===== src/Gateway/App/Codes.antt =====
-- Authorization codes are single-use, whatever happens to the request that presents one.
use evaggregator.Gateway.AccessTokens.{Jwt, Pkce}
use evaggregator.Gateway.App.{
  Draw, GatewaySettings, GatewayState, TokenRequest, authorization_code, authorize, consume,
  enforce_rate_limit, invalid_code, issue_refresh, open_session, other_grant, redeem_code,
  refresh_session, refresh_token_grant, rotate_token, sso_callback, text, token,
}
use evaggregator.Base.{
  Option-cases, Result, Result-cases, arith, err, if◌then◌else◌, inl, inr, nat_beq_iff, nat_eq,
  none, refl, some, ℕ, ◌<◌, ◌==◌, ◌≡◌, ◌≢◌,
}
use evaggregator.Base.Dict.{Dict, beq_refl, erase, lookup, lookup-erase, lookup-insert}

module _ {T : Type 0} (jwt : Jwt T) (pkce : Pkce) (c : GatewaySettings) where
  -- What one request does to the gateway, while no new code is `code`.
  pub data Step (code : ℕ) (s : GatewayState) : GatewayState → Type 0 where
    authorized :
        (new subject tenant challenge : ℕ)
        → new ≢ code
        → Step code s (authorize new subject tenant challenge s).1
    requested : (q : TokenRequest) (d : Draw) → Step code s (token jwt pkce c q d s).1
    signed_on :
        (providers : Dict ℕ (ℕ → Result ℕ ℕ)) (provider tenant credential : ℕ) (d : Draw)
        → Step code s (sso_callback jwt pkce c providers provider tenant credential d s).1

  pub data Run (code : ℕ) (s : GatewayState) : GatewayState → Type 0 where
    start : Run code s s
    next : {t u : GatewayState} → Run code s t → Step code t u → Run code s u

  open_session-codes :
      (subject tenant : ℕ) (d : Draw) (s : GatewayState)
      → (open_session jwt pkce c subject tenant d s).1.codes ≡ s.codes
  unfolding open_session enforce_rate_limit issue_refresh
  open_session-codes subject tenant d s = ground arith

  refresh_session-codes :
      (t : ℕ) (d : Draw) (s : GatewayState) → (refresh_session jwt pkce c t d s).1.codes ≡ s.codes
  unfolding refresh_session rotate_token enforce_rate_limit
  refresh_session-codes t d s = ground arith

  -- A presented code is gone, and every other code stays.
  redeem_code-codes :
      (code verifier j : ℕ) (d : Draw) (s : GatewayState)
      → lookup j (redeem_code jwt pkce c code verifier d s).1.codes
        ≡ (if code == j then none else lookup j s.codes)
  unfolding redeem_code consume
  redeem_code-codes code verifier j d s = elim (Option-cases (lookup code s.codes)) [
    | inl e ↦ ground (arith, e, nat_beq_iff code j)
    | inr (p, e) ↦
        let s' : GatewayState = record s { codes = erase code s.codes } in
        ground
          (arith, e, lookup-erase code j s.codes, open_session-codes p.subject p.tenant_id d s')
  ]

  token-codes :
      (j : ℕ) (q : TokenRequest) (d : Draw) (s : GatewayState)
      → lookup j s.codes ≡ none
      → lookup j (token jwt pkce c q d s).1.codes ≡ none
  unfolding token
  token-codes j (authorization_code code verifier) d s h =
      ground (arith, h, redeem_code-codes (text code) (text verifier) j d s)
  token-codes j (refresh_token_grant t) d s h =
      ground (arith, h, refresh_session-codes (text t) d s)
  token-codes j (other_grant g) d s h = h

  sso-codes :
      (providers : Dict ℕ (ℕ → Result ℕ ℕ)) (provider tenant credential : ℕ) (d : Draw)
      (s : GatewayState)
      → (sso_callback jwt pkce c providers provider tenant credential d s).1.codes ≡ s.codes
  unfolding sso_callback
  sso-codes providers provider tenant credential d s =
      elim (Option-cases (lookup provider providers)) [
        | inl e ↦ rw (e, sso_callback) refl
        | inr (authenticate, e) ↦ elim (Result-cases (authenticate credential)) [
          | inl (x, r) ↦ rw (e, r, sso_callback) refl
          | inr (subject, r) ↦ rw (e, r, sso_callback) (open_session-codes subject tenant d s)
        ]
      ]

  Step-codes :
      (code : ℕ) {s u : GatewayState}
      → Step code s u
      → lookup code s.codes ≡ none
      → lookup code u.codes ≡ none
  unfolding authorize
  Step-codes code {s} (authorized new subject tenant challenge fresh) h = ground (
    arith,
    lookup-insert new code
        (record { code_challenge = challenge; subject = subject; tenant_id = tenant }) s.codes,
  )
  Step-codes code {s} (requested q d) h = token-codes code q d s h
  Step-codes code {s} (signed_on providers provider tenant credential d) h =
      rw (sso-codes providers provider tenant credential d s) h

  Run-codes :
      (code : ℕ) {s u : GatewayState}
      → Run code s u
      → lookup code s.codes ≡ none
      → lookup code u.codes ≡ none
  Run-codes code start h = h
  Run-codes code (next r st) h = Step-codes code st (Run-codes code r h)

  -- An authorization code that was presented once, with a right or a wrong verifier and whether or not
  -- tokens came of it, is dead: after any further requests, in which no new code happens to be the same,
  -- presenting it with any verifier is refused as invalid and changes nothing.
  pub code_used_once :
      (code v w : ℕ) (d e : Draw) (s : GatewayState) {u : GatewayState}
      → 0 < code
      → 0 < v
      → 0 < w
      → Run code (token jwt pkce c (authorization_code (some code) (some v)) d s).1 u
      → token jwt pkce c (authorization_code (some code) (some w)) e u ≡ (err invalid_code, u)
  unfolding token redeem_code consume
  code_used_once code v w d e s {u} filled₀ filled₁ filled₂ run =
      let gone : lookup code
            (token jwt pkce c (authorization_code (some code) (some v)) d s).1.codes
          ≡ none =
        ground (arith, redeem_code-codes code v code d s, beq_refl code) in
      let still = Run-codes code run gone in ground (arith, still)
