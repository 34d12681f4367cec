-- ===== src/Billing/Promotions.antt =====
-- backend/src/evagg/billing/promotions.py. Amounts and discount values are non-negative. The
-- float quotient of a percent discount is taken exactly and rounded half to even, which is what the
-- source computes as long as the product stays below 2 ^ 50.
pub mod UsageLimit
pub mod Discounts
mod Examples
use evaggregator.Base.{
  Bool, Exec, List, Option, Result, [], err, false, if◌then◌else◌, leb, ltb, nat_eq, none, not, ok,
  some, ℕ, ◌%◌, ◌&&◌, ◌*◌, ◌++◌, ◌+◌, ◌-◌, ◌/◌, ◌==◌, ◌∷◌,
}
use evaggregator.Base.Dict.{Dict, insert, lookup}

pub data DiscountType : Type 0 where
  percent flat other_discount : DiscountType

pub record Promotion : Type 0 where
  pub id : ℕ
  pub tenant_id : ℕ
  pub code : Option ℕ
  pub discount_type : DiscountType
  pub value : ℕ
  pub valid_from : ℕ
  pub valid_to : ℕ
  pub usage_limit : Option ℕ

abbrev pub PromotionStore : Type 0
PromotionStore = Dict ℕ Promotion

-- `add`: a seasonal promotion has no code and is not stored.
pub add : Promotion → PromotionStore → PromotionStore
add p s = elim p.code [ none ↦ s | some code ↦ insert code p s ]

abbrev pub get_by_code : ℕ → PromotionStore → Option Promotion
get_by_code = lookup

-- (promotion id, session id)
abbrev pub RedemptionStore : Type 0
RedemptionStore = List (ℕ × ℕ)

pub count_redemptions : ℕ → RedemptionStore → ℕ
count_redemptions promotion [] = 0
count_redemptions promotion ((p, session) ∷ rs) =
    (if p == promotion then 1 else 0) + count_redemptions promotion rs

pub record_redemption : ℕ → ℕ → RedemptionStore → RedemptionStore
record_redemption promotion session rs = rs ++ (promotion, session) ∷ []

unfoldable pub is_promo_within_validity_window : Promotion → ℕ → Bool
is_promo_within_validity_window p now = leb p.valid_from now && leb now p.valid_to

pub data PromotionError : Type 0 where
  unknown_code not_valid_now limit_reached : PromotionError

-- `current_count >= promotion.usage_limit`, if there is a limit
abbrev pub limit_is_reached : Promotion → RedemptionStore → Bool
limit_is_reached p rs = elim p.usage_limit [
  | none ↦ false
  | some limit ↦ leb limit (count_redemptions p.id rs)
]

pub redeem_promotion : Promotion → ℕ → ℕ → Exec PromotionError RedemptionStore Promotion
unfolding is_promo_within_validity_window record_redemption
redeem_promotion p session now rs =
    if not (is_promo_within_validity_window p now)
    then (err not_valid_now, rs)
    else if limit_is_reached p rs
    then (err limit_reached, rs)
    else (ok p, record_redemption p.id session rs)

pub redeem_promo_code : PromotionStore → ℕ → ℕ → ℕ → Exec PromotionError RedemptionStore Promotion
unfolding redeem_promotion
redeem_promo_code s code session now rs = elim (get_by_code code s) [
  | none ↦ (err unknown_code, rs)
  | some p ↦ redeem_promotion p session now rs
]

-- `round(n / 10_000)`
pub round_basis_points : ℕ → ℕ
round_basis_points n =
    let q = n / 10_000 in
    let r = n % 10_000 in if ltb r 5_000 then q else if ltb 5_000 r then q + 1 else q + q % 2

pub data DiscountError : Type 0 where
  unknown_discount_type : DiscountError

-- `max(0, base - discount)` is the subtraction that stops at 0.
pub apply_discount : ℕ → Promotion → Result DiscountError ℕ
unfolding round_basis_points
apply_discount base p = elim p.discount_type [
  | percent ↦ ok (base - round_basis_points (base * p.value))
  | flat ↦ ok (base - p.value)
  | other_discount ↦ err unknown_discount_type
]
