-- ===== src/Identity/Accounts/Logins.antt =====
-- What a driver can do with an email and a password.
use evaggregator.Identity.Accounts.{
  AuthState, DriverAccount, NewAccount, SessionDraw, account_of, check_email, create, find_by_email,
  invalid_email_or_password, issue_session, login, platform_tenant_id, refresh, signup,
  verify_password,
}
use evaggregator.Identity.Text.{Text, normalized, text_beq_iff, text_eq}
use evaggregator.Gateway.RefreshTokens.{issue, rotate}
use evaggregator.Base.{
  Bool-cases, Option-cases, Result-cases, arith, err, inl, inr, nat_eq, none, ok, some, subst, sym,
  true, ℕ, ◌≡◌, ◌≢◌,
}
use evaggregator.Base.Dict.{lookup, lookup-insert, lookup-insert_self}
use evaggregator.Identity.Credentials.{hash_credential, verify_credential}
use evaggregator.Gateway.AccessTokens.{Jwt, TokenSettings, create_access_token}

module _ {T : Type 0} (jwt : Jwt T) (c : TokenSettings) (derive : ℕ → ℕ → ℕ) where
  -- What one request does, where a new account draws a new id.
  pub data Step (s : AuthState) : AuthState → Type 0 where
    signed_up :
        (n : NewAccount) (d : SessionDraw)
        → lookup n.id s.accounts.by_id ≡ none
        → Step s (signup jwt c derive n d s).1
    logged_in :
        (email : Text) (password : ℕ) (d : SessionDraw)
        → Step s (login jwt c derive email password d s).1
    refreshed : (t : ℕ) (d : SessionDraw) → Step s (refresh jwt c derive t d s).1

  pub data Run (s : AuthState) : AuthState → Type 0 where
    at_signup : Run s s
    then_request : {t u : AuthState} → Run s t → Step t u → Run s u

  -- The account stands under its id and its email.
  abbrev Holds : Text → DriverAccount → AuthState → Type 0
  Holds email a s =
      (lookup email s.accounts.id_by_email ≡ some a.id) × (lookup a.id s.accounts.by_id ≡ some a)

  signup-Holds :
      (email : Text) (a : DriverAccount) (n : NewAccount) (d : SessionDraw) (s : AuthState)
      → lookup n.id s.accounts.by_id ≡ none
      → Holds email a s
      → Holds email a (signup jwt c derive n d s).1
  unfolding signup create issue_session
  signup-Holds email a n d s fresh h = elim (Bool-cases (check_email n.email)) [
    | inr x ↦ ground (arith, x, h)
    | inl x ↦ elim (Option-cases (lookup (normalized n.email) s.accounts.id_by_email)) [
      | inr (j, e) ↦ ground (arith, x, e, h)
      | inl e ↦ ground (
        arith,
        x,
        e,
        h,
        fresh,
        lookup-insert (normalized n.email) email n.id s.accounts.id_by_email,
        lookup-insert n.id a.id (account_of derive n) s.accounts.by_id,
        text_beq_iff (normalized n.email) email,
      )
    ]
  ]

  login-accounts :
      (email : Text) (password : ℕ) (d : SessionDraw) (s : AuthState)
      → (login jwt c derive email password d s).1.accounts ≡ s.accounts
  unfolding login issue_session
  login-accounts email password d s = elim (Bool-cases (check_email email)) [
    | inr x ↦ ground (arith, x)
    | inl x ↦ elim (Option-cases (find_by_email email s.accounts)) [
      | inl e ↦ ground (arith, x, e)
      | inr (a, e) ↦ ground (arith, x, e)
    ]
  ]

  refresh-accounts :
      (t : ℕ) (d : SessionDraw) (s : AuthState)
      → (refresh jwt c derive t d s).1.accounts ≡ s.accounts
  unfolding refresh
  refresh-accounts t d s = elim (Result-cases (rotate t d.value s.refresh_tokens).0) [
    | inl (x, e) ↦ ground (arith, e)
    | inr (r, e) ↦ elim (Option-cases (lookup r.subject s.accounts.by_id)) [
      | inl f ↦ ground (arith, e, f)
      | inr (a, f) ↦ ground (arith, e, f)
    ]
  ]

  Run-Holds :
      (email : Text) (a : DriverAccount) {s t : AuthState}
      → Run s t
      → Holds email a s
      → Holds email a t
  Run-Holds email a at_signup h = h
  Run-Holds email a (then_request {t} r (signed_up n d fresh)) h =
      signup-Holds email a n d t fresh (Run-Holds email a r h)
  Run-Holds email a (then_request {t} r (logged_in other password d)) h =
      subst (λ x. (lookup email x.id_by_email ≡ some a.id) × (lookup a.id x.by_id ≡ some a))
        (sym (login-accounts other password d t)) (Run-Holds email a r h)
  Run-Holds email a (then_request {t} r (refreshed token d)) h =
      subst (λ x. (lookup email x.id_by_email ≡ some a.id) × (lookup a.id x.by_id ≡ some a))
        (sym (refresh-accounts token d t)) (Run-Holds email a r h)

  -- A signup with a new email logs the driver in. From then on, after any further signups that draw new
  -- ids, logins and refreshes of anyone, the driver can log in by every spelling of the email, in
  -- capitals or with spaces around it, exactly with a password that derives the same key: all other
  -- ones are refused, and change nothing.
  pub signup-login :
      (n : NewAccount) (d e : SessionDraw) (spelling : Text) (password : ℕ) (s : AuthState)
      {u : AuthState}
      → check_email n.email ≡ true
      → check_email spelling ≡ true
      → normalized spelling ≡ normalized n.email
      → lookup (normalized n.email) s.accounts.id_by_email ≡ none
      → Run (signup jwt c derive n d s).1 u
      → ((signup jwt c derive n d s).0
          ≡ ok (record {
            access_token = create_access_token jwt c n.id platform_tenant_id none d.now d.jti;
            refresh_token = d.value;
            driver = account_of derive n;
          }))
        × ((derive password n.salt ≡ derive n.password n.salt
              → (login jwt c derive spelling password e u).0
                ≡ ok (record {
                  access_token = create_access_token jwt c n.id platform_tenant_id none e.now e.jti;
                  refresh_token = e.value;
                  driver = account_of derive n;
                }))
            × (derive password n.salt ≢ derive n.password n.salt
                → login jwt c derive spelling password e u ≡ (err invalid_email_or_password, u)))
  unfolding signup issue_session create login find_by_email verify_password verify_credential
      hash_credential issue
  signup-login n d e spelling password s {u} valid valid' same new run =
      let known = lookup-insert_self (normalized n.email) n.id s.accounts.id_by_email in
      let stored = lookup-insert_self n.id (account_of derive n) s.accounts.by_id in
      let first : Holds (normalized n.email) (account_of derive n) (signup jwt c derive n d s).1 =
        ground (arith, valid, new, known, stored) in
      let held = Run-Holds (normalized n.email) (account_of derive n) run first in
      (
        ground (arith, valid, new),
        (
          λ right. ground (arith, valid', same, held, right),
          λ wrong. ground (arith, valid', same, held, wrong),
        ),
      )
