-- ===== src/Roaming/Profiles.antt =====
-- backend/src/evagg/ocpi/charging_profiles.py: charging profiles that a partner sets on a session.
-- A limit is a floating-point number of watts.
pub mod Capacity
mod Examples
use evaggregator.Base.{
  Bool, List, Option, Result, [], err, false, if◌then◌else◌, ltb, nat_eq, none, not, ok, some, true,
  ℕ, ◌&&◌, ◌++◌, ◌==◌, ◌||◌, ◌∷◌,
}
use evaggregator.Roaming.Bindings.{
  SessionChargerBinding, SessionChargerMap, get_charger_for_session,
}
use evaggregator.Roaming.Commands.{Fresh, command_accepted, command_of}
use evaggregator.Ocpp.Commands.{
  Capacities, CommandError, CommandLogStore, CommandOutcome, CommandResult, Dispatch,
  send_set_charging_profile, set_charging_profile,
}
use evaggregator.Ocpp.Presence.{PresenceRegistry}
use evaggregator.Base.Dict.{Dict, insert, lookup}

-- A float: a number from zero up, as its whole part and its fraction in units of the least float, one
-- below zero, or none of them.
pub data Limit : Type 0 where
  number : ℕ → ℕ → Limit
  below_zero : ℕ → ℕ → Limit
  infinite below_all not_a_number : Limit

pub record ChargingProfilePeriod : Type 0 where
  pub start_period : ℕ
  pub limit : Limit

pub data RateUnit : Type 0 where
  watts : RateUnit
  other_unit : ℕ → RateUnit

pub record ActiveChargingProfile : Type 0 where
  pub session_id : ℕ
  pub charging_rate_unit : RateUnit
  pub periods : List ChargingProfilePeriod
  pub duration : Option ℕ
  pub min_charging_rate : Option ℕ
  pub start_date_time : Option ℕ

abbrev pub ActiveProfiles : Type 0
ActiveProfiles = Dict ℕ ActiveChargingProfile

pub data ProfileStatus : Type 0 where
  profile_accepted profile_rejected profile_unknown_session : ProfileStatus
  -- the OverflowError or the ValueError of `int`, which nothing catches
  profile_raised : ProfileStatus

-- `a < b` on two fractions of a whole
abbrev pub before : ℕ → ℕ → ℕ → ℕ → Bool
before w f v g = ltb w v || ((w == v) && ltb f g)

-- `x > best`
abbrev pub exceeds : Limit → Limit → Bool
exceeds (number v g) (number w f) = before w f v g
exceeds (number v g) (below_zero w f) = true
exceeds (number v g) infinite = false
exceeds (number v g) below_all = true
exceeds (number v g) not_a_number = false
exceeds (below_zero v g) (number w f) = false
exceeds (below_zero v g) (below_zero w f) = before v g w f
exceeds (below_zero v g) infinite = false
exceeds (below_zero v g) below_all = true
exceeds (below_zero v g) not_a_number = false
exceeds infinite (number w f) = true
exceeds infinite (below_zero w f) = true
exceeds infinite infinite = false
exceeds infinite below_all = true
exceeds infinite not_a_number = false
exceeds below_all b = false
exceeds not_a_number b = false

-- `max`: the first of the greatest ones.
abbrev pub greatest_from : Limit → List ChargingProfilePeriod → Limit
greatest_from best [] = best
greatest_from best (p ∷ ps) = greatest_from (if exceeds p.limit best then p.limit else best) ps

-- `int`, which truncates, with a number below zero as 0, since it is compared with a capacity only.
abbrev pub int_of : Limit → Option ℕ
int_of (number w f) = some w
int_of (below_zero w f) = some 0
int_of infinite = none
int_of below_all = none
int_of not_a_number = none

-- `int(max((p.limit for p in periods), default=0))`
abbrev pub highest_limit : List ChargingProfilePeriod → Option ℕ
highest_limit [] = some 0
highest_limit (p ∷ ps) = int_of (greatest_from p.limit ps)

abbrev pub limit_digits : Limit → List ℕ
limit_digits (number w f) = 0 ∷ w ∷ f ∷ []
limit_digits (below_zero w f) = 1 ∷ w ∷ f ∷ []
limit_digits infinite = 2 ∷ []
limit_digits below_all = 3 ∷ []
limit_digits not_a_number = 4 ∷ []

abbrev pub option_digits : Option ℕ → List ℕ
option_digits none = 0 ∷ []
option_digits (some x) = 1 ∷ x ∷ []

abbrev pub period_digits : List ChargingProfilePeriod → List ℕ
period_digits [] = []
period_digits (p ∷ ps) = p.start_period ∷ limit_digits p.limit ++ period_digits ps

-- What varies in the payload: the connector, the duration, the lowest rate and the periods. The unit is
-- always watts here.
abbrev pub profile_payload : ℕ → ActiveChargingProfile → List ℕ
profile_payload connector p =
    connector ∷ option_digits p.duration
    ++ option_digits p.min_charging_rate
    ++ period_digits p.periods

abbrev pub uses_watts : RateUnit → Bool
uses_watts watts = true
uses_watts (other_unit u) = false

abbrev pub store_if_accepted :
    ActiveChargingProfile
    → Result CommandError CommandResult
    → ActiveProfiles
    → ProfileStatus × ActiveProfiles
store_if_accepted p (err e) s = (profile_rejected, s)
store_if_accepted p (ok r) s =
    if command_accepted r.status
    then (profile_accepted, insert p.session_id p s)
    else (profile_rejected, s)

module _ (send : Dispatch → CommandOutcome) (timeout : ℕ) (presence : PresenceRegistry)
    (capacities : Capacities) where
  pub set_profile_on :
      Fresh
      → SessionChargerBinding
      → ℕ
      → ActiveChargingProfile
      → ActiveProfiles × CommandLogStore
      → ProfileStatus × (ActiveProfiles × CommandLogStore)
  set_profile_on f b requested p (s, l) =
      let (r, l') =
        send_set_charging_profile send timeout
          (command_of f b.charger_id b.tenant_id set_charging_profile
            (profile_payload b.connector_id p))
          b.connector_id requested capacities presence l in
      let (o, s') = store_if_accepted p r s in (o, (s', l'))

  pub set_profile :
      Fresh
      → ActiveChargingProfile
      → SessionChargerMap
      → ActiveProfiles × CommandLogStore
      → ProfileStatus × (ActiveProfiles × CommandLogStore)
  set_profile f p m st = elim (get_charger_for_session p.session_id m) [
    | none ↦ (profile_unknown_session, st)
    | some b ↦
        if not (uses_watts p.charging_rate_unit)
        then (profile_rejected, st)
        else elim (highest_limit p.periods) [
          | none ↦ (profile_raised, st)
          | some requested ↦ set_profile_on f b requested p st
        ]
  ]

pub get_active_profile :
    ℕ → SessionChargerMap → ActiveProfiles → ProfileStatus × Option ActiveChargingProfile
get_active_profile session m s = elim (get_charger_for_session session m) [
  | none ↦ (profile_unknown_session, none)
  | some b ↦ (profile_accepted, lookup session s)
]
