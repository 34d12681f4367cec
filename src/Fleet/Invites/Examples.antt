-- ===== src/Fleet/Invites/Examples.antt =====
-- An invite with two seats, and three drivers who want one.
use evaggregator.Fleet.Invites.{
  JoinConfig, JoinRequest, JoinState, TeamInvite, check_rate, create, redeem, redeem_invite,
  take_slot, try_increment_used_count,
}
use evaggregator.Fleet.Invites.Seats.{redeem_all, seats_exact, used_by}
use evaggregator.Gateway.RateLimit.{allow, new_limiter}
use evaggregator.Base.{List, [], arith, nat_eq, refl, some, ℕ, ◌∷◌, ◌≡◌, ◌≤◌}
use evaggregator.Base.Dict.{lookup}

abbrev invite : TeamInvite
invite = record { code = 9; team_id = 4; role = 1; max_uses = 2; used_count = 0; expires_at = 100 }

abbrev config : JoinConfig
config = record { max_attempts_per_window = 5; window_seconds = 60 }

abbrev joining : JoinState
joining = record { limiter = new_limiter; invites = (9, invite) ∷ []; memberships = [] }

abbrev by_driver : ℕ → JoinRequest
by_driver d = record { driver_id = d; code = 9; requester_key = d; now = 50; clock = 7 }

abbrev queue : List JoinRequest
queue = by_driver 1 ∷ by_driver 2 ∷ by_driver 3 ∷ []

seats_exact_example :
    (lookup 9 (redeem_all config queue joining).invites ≡ some (used_by 2 invite)) × (2 ≤ 2)
unfolding redeem redeem_invite take_slot try_increment_used_count check_rate create allow
seats_exact_example = seats_exact config 9 queue invite joining refl (omega arith)
