-- ===== src/Identity/Accounts.antt =====
-- backend/src/evagg/identity/driver_auth.py and driver_auth_router.py: drivers' accounts, and the
-- sessions that a signup, a login or a refresh opens. An id and its text are the same number; ids, salts,
-- token values and the clock are arguments. PyJWT and the key derivation are parameters.
pub mod Unique
pub mod Logins
mod Examples
use evaggregator.Identity.Text.{Text, ends_with, normalized, starts_with, text_eq}
use evaggregator.Identity.Credentials.{StoredHash, hash_credential, verify_credential}
use evaggregator.Gateway.AccessTokens.{Jwt, TokenSettings, create_access_token}
use evaggregator.Gateway.RefreshTokens.{
  RefreshToken, RefreshTokenError, RefreshTokenStore, issue, rotate,
}
use evaggregator.Base.{
  Bool, Exec, Option, Result, any_by, err, if◌then◌else◌, nat_eq, none, not, ok, or_raise, pure,
  raise, some, ℕ, ◌&&◌, ◌==◌, ◌>>=◌, ◌>>◌,
}
use evaggregator.Base.Dict.{Dict, contains, insert, lookup}

pub record DriverAccount : Type 0 where
  pub id : ℕ
  pub tenant_id : ℕ
  pub email : Text
  pub full_name : ℕ
  pub password_hash : StoredHash

pub record DriverAccountStore : Type 0 where
  pub by_id : Dict ℕ DriverAccount
  pub id_by_email : Dict Text ℕ

pub data AuthError : Type 0 where
  invalid_email email_already_registered : AuthError
  invalid_email_or_password invalid_refresh_token : AuthError

-- Drivers of no fleet belong to this tenant.
abbrev pub platform_tenant_id : ℕ
platform_tenant_id = 1

pub record NewAccount : Type 0 where
  pub id : ℕ
  pub salt : ℕ
  pub email : Text
  pub full_name : ℕ
  pub password : ℕ

-- The values that opening a session draws.
pub record SessionDraw : Type 0 where
  pub now : ℕ
  pub jti : ℕ
  pub family : ℕ
  pub value : ℕ

pub record AuthState : Type 0 where
  pub accounts : DriverAccountStore
  pub refresh_tokens : RefreshTokenStore

pub record DriverSession (T : Type 0) : Type 0 where
  pub access_token : T
  pub refresh_token : ℕ
  pub driver : DriverAccount

unfoldable pub find_by_email : Text → DriverAccountStore → Option DriverAccount
find_by_email email s = elim (lookup (normalized email) s.id_by_email) [
  | none ↦ none
  | some id ↦ lookup id s.by_id
]

abbrev pub get_account : ℕ → DriverAccountStore → Option DriverAccount
get_account id s = lookup id s.by_id

-- `_check_email`
unfoldable pub check_email : Text → Bool
check_email e = any_by (λ c. c == 64) e && (not (starts_with 64 e) && not (ends_with 64 e))

abbrev pub refused_as :
    AuthError → Result RefreshTokenError RefreshToken → Result AuthError RefreshToken
refused_as e (err x) = err e
refused_as e (ok r) = ok r

module _ (derive : ℕ → ℕ → ℕ) where
  abbrev pub account_of : NewAccount → DriverAccount
  account_of n = record {
    id = n.id;
    tenant_id = platform_tenant_id;
    email = normalized n.email;
    full_name = n.full_name;
    password_hash = hash_credential derive n.salt n.password;
  }

  unfoldable pub create : NewAccount → Exec AuthError DriverAccountStore DriverAccount
  create n s =
      if contains (normalized n.email) s.id_by_email then (err email_already_registered, s) else (
        ok (account_of n),
        record {
          by_id = insert n.id (account_of n) s.by_id;
          id_by_email = insert (normalized n.email) n.id s.id_by_email;
        },
      )

  unfoldable pub verify_password : DriverAccount → ℕ → Bool
  unfolding verify_credential
  verify_password a password = verify_credential derive password a.password_hash

module _ {T : Type 0} (jwt : Jwt T) (c : TokenSettings) (derive : ℕ → ℕ → ℕ) where
  unfoldable pub issue_session :
      DriverAccount → SessionDraw → Exec AuthError AuthState (DriverSession T)
  issue_session a d s =
      let (r, tokens') = issue d.family d.value a.id a.tenant_id s.refresh_tokens in
      (
        ok (record {
          access_token = create_access_token jwt c a.id a.tenant_id none d.now d.jti;
          refresh_token = r.token;
          driver = a;
        }),
        record s { refresh_tokens = tokens' },
      )

  abbrev pub create_in : NewAccount → Exec AuthError AuthState DriverAccount
  create_in n s =
      let (r, accounts') = create derive n s.accounts in (r, record s { accounts = accounts' })

  unfoldable pub signup : NewAccount → SessionDraw → Exec AuthError AuthState (DriverSession T)
  unfolding issue_session
  signup n d =
      if check_email n.email then (do a ← create_in n; issue_session a d) else raise invalid_email

  abbrev pub login_as :
      Option DriverAccount → ℕ → SessionDraw → Exec AuthError AuthState (DriverSession T)
  login_as none password d = raise invalid_email_or_password
  login_as (some a) password d =
      if verify_password derive a password
      then issue_session a d
      else raise invalid_email_or_password

  unfoldable pub login : Text → ℕ → SessionDraw → Exec AuthError AuthState (DriverSession T)
  unfolding issue_session
  login email password d s =
      if check_email email
      then login_as (find_by_email email s.accounts) password d s
      else (err invalid_email, s)

  abbrev pub rotate_in : ℕ → ℕ → Exec AuthError AuthState RefreshToken
  rotate_in token value s =
      let (r, tokens') = rotate token value s.refresh_tokens in
      (refused_as invalid_refresh_token r, record s { refresh_tokens = tokens' })

  -- The token is rotated before the account is looked up.
  unfoldable pub refresh : ℕ → SessionDraw → Exec AuthError AuthState (DriverSession T)
  refresh token d = do
    r ← rotate_in token d.value
    a ← (λ s. or_raise (get_account r.subject s.accounts) invalid_refresh_token s)
    pure (record {
      access_token = create_access_token jwt c a.id a.tenant_id none d.now d.jti;
      refresh_token = r.token;
      driver = a;
    })
