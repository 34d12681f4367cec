-- ===== src/Identity/Accounts/Examples.antt =====
-- The driver a@b, who also writes the address in capitals, with a space before it.
use evaggregator.Identity.Accounts.{
  AuthState, DriverAccount, DriverAccountStore, NewAccount, SessionDraw, account_of, check_email,
  create, find_by_email, get_account, invalid_email_or_password, login, signup,
}
use evaggregator.Identity.Accounts.Logins.{at_signup, logged_in, signup-login, then_request}
use evaggregator.Identity.Text.{Text, normalized}
use evaggregator.Gateway.AccessTokens.{Jwt, TokenSettings, create_access_token}
use evaggregator.Gateway.RefreshTokens.{empty}
use evaggregator.Identity.Accounts.Unique.{IsIndexed, email_has_one_account, here, next}
use evaggregator.Base.{[], arith, err, none, ok, refl, some, ℕ, ◌+◌, ◌∷◌, ◌≡◌, ◌≢◌}

abbrev added : ℕ → ℕ → ℕ
added a b = a + b

abbrev jti_only : Jwt ℕ
jti_only = record { encode = λ c secret. c.token_id; decode = λ t secret now. none }

abbrev short : TokenSettings
short = record { signing_secret = 5; access_token_ttl_seconds = 900 }

abbrev plainly : Text
plainly = 97 ∷ 64 ∷ 98 ∷ []

abbrev capitals : Text
capitals = 32 ∷ 65 ∷ 64 ∷ 66 ∷ []

abbrev new_driver : NewAccount
new_driver = record { id = 7; salt = 3; email = plainly; full_name = 1; password = 42 }

abbrev drawn : ℕ → SessionDraw
drawn n = record { now = 100; jti = n; family = n; value = n }

abbrev nobody : AuthState
nobody = record { accounts = record { by_id = []; id_by_email = [] }; refresh_tokens = empty }

-- The driver has logged in once.
abbrev after_login : AuthState
after_login =
    (login jti_only short added capitals 42 (drawn 25)
      (signup jti_only short added new_driver (drawn 20) nobody).1).1

signup-login_example :
    let u = after_login in
    ((signup jti_only short added new_driver (drawn 20) nobody).0
      ≡ ok (record {
        access_token = create_access_token jti_only short 7 1 none 100 20;
        refresh_token = 20;
        driver = account_of added new_driver;
      }))
    × ((added 41 3 ≡ added 42 3
          → (login jti_only short added capitals 41 (drawn 30) u).0
            ≡ ok (record {
              access_token = create_access_token jti_only short 7 1 none 100 30;
              refresh_token = 30;
              driver = account_of added new_driver;
            }))
        × (added 41 3 ≢ added 42 3
            → login jti_only short added capitals 41 (drawn 30) u
              ≡ (err invalid_email_or_password, u)))
unfolding normalized check_email
signup-login_example =
    signup-login jti_only short added new_driver (drawn 20) (drawn 30) capitals 41 nobody
      {u = after_login} refl refl refl refl
      (then_request at_signup (logged_in capitals 42 (drawn 25)))

empty-IsIndexed : IsIndexed nobody.accounts
empty-IsIndexed = record { listed = λ i a p. ground arith; known = λ e i q. ground arith }

abbrev one_driver : DriverAccountStore
one_driver = (create added new_driver nobody.accounts).1

email_has_one_account_example :
    ((i j : ℕ) (a b : DriverAccount)
      → get_account i one_driver ≡ some a
      → get_account j one_driver ≡ some b
      → a.email ≡ b.email
      → i ≡ j)
    × ((i : ℕ) (a : DriverAccount) (spelling : Text)
        → get_account i one_driver ≡ some a
        → normalized spelling ≡ a.email
        → find_by_email spelling one_driver ≡ some a)
email_has_one_account_example =
    email_has_one_account added {t = one_driver} (next here new_driver refl) empty-IsIndexed
