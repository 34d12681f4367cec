-- ===== src/Billing/Payouts/Shares.antt =====
-- The share of a percent rule.
use evaggregator.Billing.Payouts.{PayoutRule, calculate_payout, percent_split}
use evaggregator.Billing.Promotions.{round_basis_points}
use evaggregator.Billing.Promotions.Discounts.{discount-le-base, round_basis_points_nearest}
use evaggregator.Base.{some, ℕ, ◌*◌, ◌+◌, ◌≡◌, ◌≤◌}

-- A percent rule of at most 100 % never pays out more than the revenue, and is within half a minor unit
-- of revenue * value / 10000; what the operator and the platform get adds up to the revenue.
pub percent_share :
    (gross : ℕ) (rule : PayoutRule)
    → rule.split_type ≡ percent_split
    → rule.value ≤ 10_000
    → (share : ℕ) × (calculate_payout gross rule ≡ some share)
      × (share ≤ gross)
      × (2 * (10_000 * share) ≤ 2 * (gross * rule.value) + 10_000)
      × (2 * (gross * rule.value) ≤ 2 * (10_000 * share) + 10_000)
unfolding calculate_payout
percent_share gross rule kind h =
    let near = round_basis_points_nearest (gross * rule.value) in
    (
      round_basis_points (gross * rule.value),
      rw kind,
      discount-le-base gross rule.value h,
      near.0,
      near.1,
    )
