-- ===== src/Billing/Pricing.antt =====
-- backend/src/evagg/billing/pricing_resolution.py: the order in which a price source is chosen.
pub mod Precedence
mod Examples
use evaggregator.Billing.Promotions.{
  Promotion, PromotionStore, get_by_code, is_promo_within_validity_window,
}
use evaggregator.Base.{Option, if◌then◌else◌, nat_eq, none, some, ℕ}
use evaggregator.Base.Dict.{Dict, insert, lookup}

pub record OverrideStore : Type 0 where
  pub site_overrides : Dict ℕ ℕ
  pub operator_overrides : Dict ℕ ℕ

pub set_site_override : ℕ → ℕ → OverrideStore → OverrideStore
set_site_override site tariff s = record s { site_overrides = insert site tariff s.site_overrides }

pub set_operator_override : ℕ → ℕ → OverrideStore → OverrideStore
set_operator_override operator tariff s = record s {
  operator_overrides = insert operator tariff s.operator_overrides;
}

-- `PricingResolution`: the source, with the promotion or the tariff that it resolved to.
pub data PricingResolution : Type 0 where
  promo : Promotion → PricingResolution
  site operator default : ℕ → PricingResolution

-- `get_by_code` of a code that may be missing
abbrev pub find_promo : Option ℕ → PromotionStore → Option Promotion
find_promo none s = none
find_promo (some code) s = get_by_code code s

abbrev pub find_override : Option ℕ → Dict ℕ ℕ → Option ℕ
find_override none s = none
find_override (some key) s = lookup key s

resolve_operator : ℕ → Option ℕ → PricingResolution
resolve_operator fallback none = default fallback
resolve_operator fallback (some tariff) = operator tariff

resolve_site : ℕ → Option ℕ → Option ℕ → PricingResolution
unfolding resolve_operator
resolve_site fallback none by_operator = resolve_operator fallback by_operator
resolve_site fallback (some tariff) by_operator = site tariff

resolve_promo : ℕ → Option Promotion → ℕ → Option ℕ → Option ℕ → PricingResolution
unfolding resolve_site is_promo_within_validity_window
resolve_promo fallback none now by_site by_operator = resolve_site fallback by_site by_operator
resolve_promo fallback (some p) now by_site by_operator =
    if is_promo_within_validity_window p now
    then promo p
    else resolve_site fallback by_site by_operator

-- The default tariff, the stores, the instant, and the three keys that may be missing.
pub resolve_pricing_source :
    ℕ → OverrideStore → PromotionStore → ℕ → Option ℕ → Option ℕ → Option ℕ → PricingResolution
unfolding resolve_promo
resolve_pricing_source fallback overrides promotions now promo_code site_id operator_id =
    resolve_promo fallback (find_promo promo_code promotions) now
      (find_override site_id overrides.site_overrides)
      (find_override operator_id overrides.operator_overrides)
