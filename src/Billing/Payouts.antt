-- ===== src/Billing/Payouts.antt =====
-- backend/src/evagg/billing/payouts.py: what an operator is paid. Revenue and values are non-negative;
-- the quotient is rounded half to even exactly, as the source does while the product stays below 2 ^ 50.
pub mod Shares
use evaggregator.Billing.Promotions.{round_basis_points}
use evaggregator.Base.{Option, none, some, ℕ, ◌*◌}

pub data SplitType : Type 0 where
  percent_split flat_fee : SplitType
  other_split : ℕ → SplitType

pub record PayoutRule : Type 0 where
  pub operator_id : ℕ
  pub site_id : Option ℕ
  pub split_type : SplitType
  pub value : ℕ

-- `none` is the `ValueError` of an unknown split.
pub calculate_payout : ℕ → PayoutRule → Option ℕ
calculate_payout gross rule = elim rule.split_type [
  | percent_split ↦ some (round_basis_points (gross * rule.value))
  | flat_fee ↦ some rule.value
  | other_split s ↦ none
]
