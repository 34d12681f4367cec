-- ===== src/Driver/Rewards.antt =====
-- backend/src/evagg/driver_app/rewards.py: points that a driver earns and redeems. A balance is an
-- integer, which the store itself does not keep from falling below 0.
pub mod Balance
use evaggregator.Base.{
  Exec, List, Option, [], err, if◌then◌else◌, nat_eq, none, ok, some, ℕ, ◌==◌, ◌∷◌,
}
use evaggregator.Base.Dict.{Dict, insert, lookup_or}
use evaggregator.Base.Int.{ltb_ℤ, pos, ℤ, ◌+ℤ◌, ◌-ℤ◌}

pub record RewardCatalogItem : Type 0 where
  pub id : ℕ
  pub points_cost : ℕ

-- The ids of the catalog: 0 is the free coffee, 1 the discount of 5 %, 2 that of 10 %.
abbrev pub reward_catalog : List RewardCatalogItem
reward_catalog =
    record { id = 0; points_cost = 100 }
    ∷ record { id = 1; points_cost = 200 }
    ∷ record { id = 2; points_cost = 350 }
    ∷ []

abbrev pub points_per_completed_session : ℕ
points_per_completed_session = 50

abbrev pub RewardsStore : Type 0
RewardsStore = Dict ℕ ℤ

pub data RewardsError : Type 0 where
  unknown_reward insufficient_points : RewardsError

pub get_balance : ℕ → RewardsStore → ℤ
get_balance driver s = lookup_or driver (pos 0) s

pub add_points : ℕ → ℤ → RewardsStore → ℤ × RewardsStore
add_points driver points s =
    let balance = lookup_or driver (pos 0) s +ℤ points in (balance, insert driver balance s)

pub deduct_points : ℕ → ℤ → RewardsStore → ℤ × RewardsStore
deduct_points driver points s =
    let balance = lookup_or driver (pos 0) s -ℤ points in (balance, insert driver balance s)

pub award_for_completed_session : ℕ → RewardsStore → ℤ × RewardsStore
award_for_completed_session driver s = add_points driver (pos points_per_completed_session) s

abbrev pub find_reward : ℕ → List RewardCatalogItem → Option RewardCatalogItem
find_reward id [] = none
find_reward id (r ∷ rs) = if r.id == id then some r else find_reward id rs

pub redeem : ℕ → ℕ → Exec RewardsError RewardsStore ℤ
redeem driver reward s = elim (find_reward reward reward_catalog) [
  | none ↦ (err unknown_reward, s)
  | some r ↦
      if ltb_ℤ (get_balance driver s) (pos r.points_cost)
      then (err insufficient_points, s)
      else (let (balance, s') = deduct_points driver (pos r.points_cost) s in (ok balance, s'))
]
