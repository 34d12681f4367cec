-- ===== src/Billing/Pricing/Examples.antt =====
-- A site override that does not shadow an active promotion, and comes before the operator's.
use evaggregator.Billing.Promotions.{Promotion, flat}
use evaggregator.Billing.Pricing.{OverrideStore, resolve_pricing_source, site}
use evaggregator.Base.{[], none, refl, some, ◌∷◌, ◌≡◌}

abbrev overrides : OverrideStore
overrides = record { site_overrides = (3, 30) ∷ []; operator_overrides = (4, 40) ∷ [] }

abbrev winter : Promotion
winter = record {
  id = 6;
  tenant_id = 1;
  code = some 77;
  discount_type = flat;
  value = 100;
  valid_from = 100;
  valid_to = 200;
  usage_limit = none;
}

site_before_operator :
    resolve_pricing_source 1 overrides ((77, winter) ∷ []) 250 (some 77) (some 3) (some 4) ≡ site 30
unfolding resolve_pricing_source
site_before_operator = refl
