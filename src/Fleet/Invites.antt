-- ===== src/Fleet/Invites.antt =====
-- backend/src/evagg/fleet: team_membership.py, team_invites.py and team_join.py. The lock of
-- `try_increment_used_count` makes the check and the increment one step, which is what is modelled.
pub mod Seats
mod Examples
use evaggregator.Gateway.RateLimit.{RateLimiter, allow}
use evaggregator.Base.{
  Bool, Exec, List, [], err, false, filter_by, if◌then◌else◌, leb, nat_eq, none, ok, some, true, ℕ,
  ◌++◌, ◌+◌, ◌==◌, ◌∷◌,
}
use evaggregator.Base.Dict.{Dict, insert, lookup}

pub record DriverTeamMembership : Type 0 where
  pub driver_id : ℕ
  pub team_id : ℕ
  pub role : ℕ

abbrev pub MembershipStore : Type 0
MembershipStore = List DriverTeamMembership

pub create : ℕ → ℕ → ℕ → MembershipStore → DriverTeamMembership × MembershipStore
create driver team role ms =
    let m : DriverTeamMembership = record { driver_id = driver; team_id = team; role = role } in
    (m, ms ++ m ∷ [])

pub list_for_team : ℕ → MembershipStore → List DriverTeamMembership
list_for_team team ms = filter_by (λ m. m.team_id == team) ms

abbrev team_ids : MembershipStore → List ℕ
team_ids [] = []
team_ids (m ∷ ms) = m.team_id ∷ team_ids ms

-- The source's set is the list of its members, with repetitions.
unfoldable pub list_team_ids_for_driver : ℕ → MembershipStore → List ℕ
list_team_ids_for_driver driver ms = team_ids (filter_by (λ m. m.driver_id == driver) ms)

pub record TeamInvite : Type 0 where
  pub code : ℕ
  pub team_id : ℕ
  pub role : ℕ
  pub max_uses : ℕ
  pub used_count : ℕ
  pub expires_at : ℕ

abbrev pub InviteStore : Type 0
InviteStore = Dict ℕ TeamInvite

pub add : TeamInvite → InviteStore → InviteStore
add invite s = insert invite.code invite s

abbrev pub used : TeamInvite → TeamInvite
used i = record i { used_count = i.used_count + 1 }

pub try_increment_used_count : ℕ → InviteStore → Bool × InviteStore
try_increment_used_count code s = elim (lookup code s) [
  | none ↦ (false, s)
  | some invite ↦
      if leb invite.max_uses invite.used_count
      then (false, s)
      else (true, insert code (used invite) s)
]

pub data InviteRedemptionError : Type 0 where
  too_many_attempts invalid_code expired fully_redeemed : InviteRedemptionError

pub record JoinState : Type 0 where
  pub limiter : RateLimiter
  pub invites : InviteStore
  pub memberships : MembershipStore

pub record JoinConfig : Type 0 where
  pub max_attempts_per_window : ℕ
  pub window_seconds : ℕ

pub record JoinRequest : Type 0 where
  pub driver_id : ℕ
  pub code : ℕ
  pub requester_key : ℕ
  pub now : ℕ
  pub clock : ℕ

-- `_rate_limiter.allow`
pub check_rate : JoinConfig → JoinRequest → JoinState → Bool × JoinState
check_rate c q s =
    let (allowed, limiter') =
      allow q.requester_key c.max_attempts_per_window c.window_seconds q.clock s.limiter in
    (allowed, record s { limiter = limiter' })

-- `try_increment_used_count`, and the new membership if a slot was won
pub take_slot : JoinRequest → TeamInvite → Exec InviteRedemptionError JoinState DriverTeamMembership
unfolding try_increment_used_count create
take_slot q invite s =
    let (won_slot, invites') = try_increment_used_count q.code s.invites in
    let s' : JoinState = record s { invites = invites' } in
    let (m, ms) = create q.driver_id invite.team_id invite.role s.memberships in
    if won_slot then (ok m, record s' { memberships = ms }) else (err fully_redeemed, s')

pub redeem_invite : JoinRequest → Exec InviteRedemptionError JoinState DriverTeamMembership
unfolding take_slot
redeem_invite q s = elim (lookup q.code s.invites) [
  | none ↦ (err invalid_code, s)
  | some invite ↦ if leb invite.expires_at q.now then (err expired, s) else take_slot q invite s
]

-- `TeamJoinService.redeem`. The limiter's key is the requester's, with the service's prefix.
pub redeem : JoinConfig → JoinRequest → Exec InviteRedemptionError JoinState DriverTeamMembership
unfolding check_rate
redeem c q s =
    let (allowed, s') = check_rate c q s in
    if allowed then redeem_invite q s' else (err too_many_attempts, s')
