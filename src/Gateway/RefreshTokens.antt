-- ===== src/Gateway/RefreshTokens.antt =====
-- backend/src/evagg/gateway/refresh_store.py: refresh token rotation with reuse detection.
-- The random family ids and token values are arguments.
pub mod Replay
pub mod Revocation
mod Examples
use evaggregator.Base.{
  Bool, Exec, List, Option, [], any_by, err, false, if◌then◌else◌, nat_eq, none, ok, some, ℕ, ◌==◌,
  ◌∷◌,
}
use evaggregator.Base.Dict.{Dict, insert, lookup}

pub data RefreshTokenError : Type 0 where
  unknown revoked reused : RefreshTokenError

pub record RefreshToken : Type 0 where
  pub token : ℕ
  pub family_id : ℕ
  pub subject : ℕ
  pub tenant_id : ℕ

pub record RefreshTokenStore : Type 0 where
  pub tokens : Dict ℕ RefreshToken
  pub current_by_family : Dict ℕ ℕ
  pub revoked_families : List ℕ

abbrev pub empty : RefreshTokenStore
empty = record { tokens = []; current_by_family = []; revoked_families = [] }

abbrev pub is_revoked : ℕ → RefreshTokenStore → Bool
is_revoked family s = any_by (λ f. f == family) s.revoked_families

-- `_current_by_family.get(family) != token`
abbrev pub is_current : ℕ → Option ℕ → Bool
is_current token none = false
is_current token (some current) = current == token

-- `uuid4()` and `token_urlsafe(32)` are the first two arguments.
unfoldable pub issue : ℕ → ℕ → ℕ → ℕ → RefreshTokenStore → RefreshToken × RefreshTokenStore
issue family value subject tenant s =
    let rt : RefreshToken = record {
      token = value;
      family_id = family;
      subject = subject;
      tenant_id = tenant;
    } in
    (
      rt,
      record s {
        tokens = insert value rt s.tokens;
        current_by_family = insert family value s.current_by_family;
      },
    )

abbrev pub renew : RefreshToken → ℕ → RefreshToken
renew existing value = record existing { token = value }

rotate_known : RefreshToken → ℕ → ℕ → Exec RefreshTokenError RefreshTokenStore RefreshToken
rotate_known existing token value s =
    if is_revoked existing.family_id s
    then (err revoked, s)
    else if is_current token (lookup existing.family_id s.current_by_family)
    then (
      ok (renew existing value),
      record s {
        tokens = insert value (renew existing value) s.tokens;
        current_by_family = insert existing.family_id value s.current_by_family;
      },
    )
    else (err reused, record s { revoked_families = existing.family_id ∷ s.revoked_families })

-- `rotate token`, the new token's value being the second argument.
unfoldable pub rotate : ℕ → ℕ → Exec RefreshTokenError RefreshTokenStore RefreshToken
unfolding rotate_known
rotate token value s = elim (lookup token s.tokens) [
  | none ↦ (err unknown, s)
  | some existing ↦ rotate_known existing token value s
]

pub revoke_family : ℕ → RefreshTokenStore → RefreshTokenStore
revoke_family family s = record s { revoked_families = family ∷ s.revoked_families }
