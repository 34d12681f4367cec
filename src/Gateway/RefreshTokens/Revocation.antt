-- ===== src/Gateway/RefreshTokens/Revocation.antt =====
-- Runs of the store, and what stays true of a revoked family.
use evaggregator.Base.{Option-cases, arith, err, inl, inr, nat_eq, none, some, true, ℕ, ◌≡◌}
use evaggregator.Base.Dict.{lookup, lookup-insert}
use evaggregator.Gateway.RefreshTokens.{
  RefreshToken, RefreshTokenStore, is_revoked, issue, renew, revoke_family, revoked, rotate,
}

-- What a login, a refresh, or a logout does to the store. New token values were never used.
pub data Step (s : RefreshTokenStore) : RefreshTokenStore → Type 0 where
  issued :
      (family value subject tenant : ℕ)
      → lookup value s.tokens ≡ none
      → Step s (issue family value subject tenant s).1
  rotated : (token value : ℕ) → lookup value s.tokens ≡ none → Step s (rotate token value s).1
  logged_out : (family : ℕ) → Step s (revoke_family family s)

pub data Run (s : RefreshTokenStore) : RefreshTokenStore → Type 0 where
  here : Run s s
  next : {t u : RefreshTokenStore} → Run s t → Step t u → Run s u

-- A token of a revoked family.
pub record IsDead (token : ℕ) (s : RefreshTokenStore) : Type 0 where
  pub entry : RefreshToken
  pub found : lookup token s.tokens ≡ some entry
  pub gone : is_revoked entry.family_id s ≡ true

issue-IsDead :
    (token family value subject tenant : ℕ) (s : RefreshTokenStore)
    → lookup value s.tokens ≡ none
    → IsDead token s
    → IsDead token (issue family value subject tenant s).1
unfolding issue
issue-IsDead token family value subject tenant s fresh h =
    let rt : RefreshToken = record {
      token = value;
      family_id = family;
      subject = subject;
      tenant_id = tenant;
    } in
    record {
      entry = h.entry;
      found = ground (arith, lookup-insert value token rt s.tokens, h.found);
      gone = h.gone;
    }

found-rotate :
    (token t value : ℕ) (s : RefreshTokenStore) {x : RefreshToken}
    → lookup value s.tokens ≡ none
    → lookup token s.tokens ≡ some x
    → lookup token (rotate t value s).1.tokens ≡ some x
unfolding rotate
found-rotate token t value s fresh h = elim (Option-cases (lookup t s.tokens)) [
  | inl e ↦ ground arith
  | inr (y, e) ↦ ground (arith, lookup-insert value token (renew y value) s.tokens)
]

is_revoked-rotate :
    (f t value : ℕ) (s : RefreshTokenStore)
    → is_revoked f s ≡ true
    → is_revoked f (rotate t value s).1 ≡ true
unfolding rotate
is_revoked-rotate f t value s h = ground arith

Step-IsDead : (token : ℕ) {s u : RefreshTokenStore} → Step s u → IsDead token s → IsDead token u
unfolding revoke_family
Step-IsDead token {s} (issued family value subject tenant fresh) h =
    issue-IsDead token family value subject tenant s fresh h
Step-IsDead token {s} (rotated t value fresh) h = record {
  entry = h.entry;
  found = found-rotate token t value s fresh h.found;
  gone = is_revoked-rotate h.entry.family_id t value s h.gone;
}
Step-IsDead token (logged_out family) h = record {
  entry = h.entry;
  found = h.found;
  gone = ground (arith, h.gone);
}

Run-IsDead : (token : ℕ) {s u : RefreshTokenStore} → Run s u → IsDead token s → IsDead token u
Run-IsDead token here h = h
Run-IsDead token (next r st) h = Step-IsDead token st (Run-IsDead token r h)

-- A token whose family is revoked is refused for good: after any logins, refreshes and logouts
-- that use fresh token values, rotating it fails as revoked and changes nothing.
pub revoked_forever :
    (token value : ℕ) {s u : RefreshTokenStore}
    → IsDead token s
    → Run s u
    → rotate token value u ≡ (err revoked, u)
unfolding rotate
revoked_forever token value {u = u} h r =
    let d = Run-IsDead token r h in ground (arith, d.found, d.gone)
