-- ===== src/Gateway/RefreshTokens/Replay.antt =====
-- A token can be used once: replaying it is detected and revokes its whole family.
use evaggregator.Gateway.RefreshTokens.{
  RefreshToken, RefreshTokenStore, is_revoked, issue, renew, reused, revoked, rotate,
}
use evaggregator.Base.{Option-cases, arith, err, false, inl, inr, nat_eq, ok, ℕ, ◌≡◌, ◌≢◌}
use evaggregator.Base.Dict.{lookup, lookup-insert, lookup-insert_self}

-- When rotating `t` has given the new token `n`, presenting `t` again is refused as a reuse, and
-- from then on `n` is refused too, because the family is revoked.
pub replay_revokes_family :
    (t n m k : ℕ) (s : RefreshTokenStore) {r : RefreshToken}
    → n ≢ t
    → (rotate t n s).0 ≡ ok r
    → let s' = (rotate t n s).1 in
      let s'' = (rotate t m s').1 in
      ((rotate t m s').0 ≡ err reused) × ((rotate n k s'').0 ≡ err revoked)
unfolding rotate
replay_revokes_family t n m k s ne done = elim (Option-cases (lookup t s.tokens)) [
  | inl e ↦ ground arith
  | inr (x, e) ↦ ground (
    arith,
    lookup-insert n t (renew x n) s.tokens,
    lookup-insert n n (renew x n) s.tokens,
    lookup-insert x.family_id x.family_id n s.current_by_family,
  )
]

-- A token that was just issued to a family that is not revoked can be rotated.
pub rotate-issue :
    (family value subject tenant n : ℕ) (s : RefreshTokenStore)
    → is_revoked family s ≡ false
    → (rotate value n (issue family value subject tenant s).1).0
      ≡ ok (record { token = n; family_id = family; subject = subject; tenant_id = tenant })
unfolding rotate issue
rotate-issue family value subject tenant n s live =
    let r : RefreshToken = record {
      token = value;
      family_id = family;
      subject = subject;
      tenant_id = tenant;
    } in
    rw (lookup-insert_self value r s.tokens, rotate, issue)
      (ground (arith, live, lookup-insert_self family value s.current_by_family))
