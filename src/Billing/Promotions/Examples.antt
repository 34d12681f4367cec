-- ===== src/Billing/Promotions/Examples.antt =====
-- A code for 12.34 % that may be used once.
use evaggregator.Billing.Promotions.{
  Promotion, PromotionStore, apply_discount, count_redemptions, percent,
}
use evaggregator.Billing.Promotions.UsageLimit.{Attempt, HasLimit, redeem_all, redemptions-le-limit}
use evaggregator.Base.{[], arith, ok, refl, some, ℕ, ◌∷◌, ◌≡◌, ◌≤◌}

abbrev spring : Promotion
spring = record {
  id = 6;
  tenant_id = 1;
  code = some 77;
  discount_type = percent;
  value = 1_234;
  valid_from = 100;
  valid_to = 200;
  usage_limit = some 1;
}

abbrev store : PromotionStore
store = (77, spring) ∷ []

abbrev attempt : ℕ → Attempt
attempt session = record { code = 77; session = session; now = 150 }

-- The store's only promotion has the limit 1.
store-HasLimit : HasLimit 6 1 store
store-HasLimit = record { at_code = λ code x found id_is. ground arith }

redemptions-le-limit_example :
    count_redemptions 6 (redeem_all store (attempt 1 ∷ attempt 2 ∷ attempt 1 ∷ []) []) ≤ 1
unfolding count_redemptions
redemptions-le-limit_example =
    redemptions-le-limit 6 1 store (attempt 1 ∷ attempt 2 ∷ attempt 1 ∷ []) [] store-HasLimit
      (omega arith)

spring_price : apply_discount 5_000 spring ≡ ok 4_383
unfolding apply_discount
spring_price = refl
