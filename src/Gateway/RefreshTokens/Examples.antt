-- ===== src/Gateway/RefreshTokens/Examples.antt =====
-- The theorems at concrete stores.
use evaggregator.Base.{arith, err, refl, ◌≡◌}
use evaggregator.Gateway.RefreshTokens.{
  RefreshTokenStore, empty, issue, reused, revoke_family, revoked, rotate,
}
use evaggregator.Gateway.RefreshTokens.Replay.{replay_revokes_family}
use evaggregator.Gateway.RefreshTokens.Revocation.{here, next, revoked_forever, rotated}

abbrev login : RefreshTokenStore
unfolding issue
login = (issue 7 100 1 2 empty).1

replay_revokes_family_example :
    let s' = (rotate 100 101 login).1 in
    let s'' = (rotate 100 102 s').1 in
    ((rotate 100 102 s').0 ≡ err reused) × ((rotate 101 103 s'').0 ≡ err revoked)
unfolding issue rotate
replay_revokes_family_example = replay_revokes_family 100 101 102 103 login (omega arith) refl

abbrev logged_out_store : RefreshTokenStore
unfolding revoke_family
logged_out_store = revoke_family 7 login

revoked_forever_example :
    rotate 100 200 (rotate 100 300 logged_out_store).1
    ≡ (err revoked, (rotate 100 300 logged_out_store).1)
unfolding issue revoke_family rotate
revoked_forever_example =
    revoked_forever 100 200 {s = logged_out_store}
      (record { entry = (issue 7 100 1 2 empty).0; found = refl; gone = refl })
      (next here (rotated 100 300 refl))
