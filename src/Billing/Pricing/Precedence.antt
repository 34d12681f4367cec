-- ===== src/Billing/Pricing/Precedence.antt =====
-- First match wins: promotion, site, operator, default.
use evaggregator.Billing.Promotions.{Promotion, PromotionStore, is_promo_within_validity_window}
use evaggregator.Billing.Pricing.{
  OverrideStore, PricingResolution, default, find_override, find_promo, operator, promo,
  resolve_pricing_source, site,
}
use evaggregator.Base.{Option, arith, if◌then◌else◌, none, some, ℕ, ◌≡◌}

-- The promotion that a code names, if it is within its window.
abbrev pub active : ℕ → Option Promotion → Option Promotion
active now none = none
active now (some p) = if is_promo_within_validity_window p now then some p else none

-- The candidates in the documented order; the first that is there is taken.
abbrev pub first_of_four : Option Promotion → Option ℕ → Option ℕ → ℕ → PricingResolution
first_of_four (some p) by_site by_operator fallback = promo p
first_of_four none (some t) by_operator fallback = site t
first_of_four none none (some t) fallback = operator t
first_of_four none none none fallback = default fallback

-- The resolution is the first candidate of: the promotion of the code, if its window holds the
-- instant; the site's override; the operator's override; the default tariff. So a site override
-- never shadows an active promotion, and an inactive promotion shadows nothing.
pub resolve-first :
    (fallback : ℕ) (o : OverrideStore) (s : PromotionStore) (now : ℕ) (code site_id op : Option ℕ)
    → resolve_pricing_source fallback o s now code site_id op
      ≡ first_of_four
          (active now (find_promo code s))
          (find_override site_id o.site_overrides)
          (find_override op o.operator_overrides)
          fallback
unfolding resolve_pricing_source
resolve-first fallback o s now code site_id op = ground arith
