-- ===== src/Driver/Rewards/Balance.antt =====
-- Points are never overdrawn.
use evaggregator.Driver.Rewards.{
  RewardsStore, add_points, award_for_completed_session, deduct_points, find_reward, get_balance,
  redeem, reward_catalog,
}
use evaggregator.Base.{Bool-cases, List, Option-cases, [], arith, inl, inr, nat_eq, ℕ, ◌∷◌}
use evaggregator.Base.Dict.{lookup-insert, lookup_or}
use evaggregator.Base.Int.{ltb_ℤ, pos, ◌+ℤ◌, ◌-ℤ◌, ◌≤ℤ◌}

pub data Command : Type 0 where
  award : ℕ → Command
  claim : ℕ → ℕ → Command

abbrev pub run_one : Command → RewardsStore → RewardsStore
run_one (award driver) s = (award_for_completed_session driver s).1
run_one (claim driver reward) s = (redeem driver reward s).1

abbrev pub run : List Command → RewardsStore → RewardsStore
run [] s = s
run (c ∷ cs) s = run cs (run_one c s)

-- No balance is below 0.
pub record IsCovered (s : RewardsStore) : Type 0 where
  pub covered : (driver : ℕ) → pos 0 ≤ℤ get_balance driver s

award-IsCovered :
    (driver : ℕ) (s : RewardsStore)
    → IsCovered s
    → IsCovered (award_for_completed_session driver s).1
unfolding award_for_completed_session add_points get_balance ◌+ℤ◌
award-IsCovered driver s h = record {
  covered = λ d. ground (
    arith,
    h.covered d,
    h.covered driver,
    lookup-insert driver d (lookup_or driver (pos 0) s +ℤ pos 50) s,
  );
}

redeem-IsCovered :
    (driver reward : ℕ) (s : RewardsStore) → IsCovered s → IsCovered (redeem driver reward s).1
unfolding redeem deduct_points get_balance ◌-ℤ◌
redeem-IsCovered driver reward s h = elim (Option-cases (find_reward reward reward_catalog)) [
  | inl n ↦ rw (n, redeem) h
  | inr (r, f) ↦ elim (Bool-cases (ltb_ℤ (get_balance driver s) (pos r.points_cost))) [
    | inl y ↦ rw (f, y, redeem) h
    | inr n ↦
        rw (f, n, redeem)
          (record {
            covered = λ d. ground (
              arith,
              n,
              h.covered d,
              lookup-insert driver d (lookup_or driver (pos 0) s -ℤ pos r.points_cost) s,
            );
          })
  ]
]

-- Whatever sessions are rewarded and whatever rewards are claimed, in any order, no driver's balance
-- falls below 0 if none was below 0 before.
pub run-IsCovered : (cs : List Command) (s : RewardsStore) → IsCovered s → IsCovered (run cs s)
run-IsCovered [] s h = h
run-IsCovered (award driver ∷ cs) s h =
    run-IsCovered cs (award_for_completed_session driver s).1 (award-IsCovered driver s h)
run-IsCovered (claim driver reward ∷ cs) s h =
    run-IsCovered cs (redeem driver reward s).1 (redeem-IsCovered driver reward s h)
