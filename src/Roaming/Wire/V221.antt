-- ===== src/Roaming/Wire/V221.antt =====
-- backend/src/evagg/ocpi/v221/models.py and adapters.py.
use evaggregator.Roaming.Domain.{
  OcpiLocation, OcpiPriceComponent, OcpiPriceType, OcpiTariff, OcpiTariffElement,
}
use evaggregator.Base.{Bool, List, Option, map, none, ℕ}
use evaggregator.Base.Int.{ℤ}

pub record GeoLocationV221 : Type 0 where
  pub latitude : ℕ
  pub longitude : ℕ

pub record LocationV221 : Type 0 where
  pub id : ℕ
  pub party_id : ℕ
  pub country_code : ℕ
  pub publish : Bool
  pub name : Option ℕ
  pub address : ℕ
  pub city : ℕ
  pub postal_code : Option ℕ
  pub country : ℕ
  pub coordinates : GeoLocationV221
  pub last_updated : ℕ

pub record PriceComponentV221 : Type 0 where
  pub type : OcpiPriceType
  pub price : ℤ
  pub step_size : ℤ

pub record TariffElementV221 : Type 0 where
  pub price_components : List PriceComponentV221

pub record TariffV221 : Type 0 where
  pub id : ℕ
  pub party_id : ℕ
  pub country_code : ℕ
  pub currency : ℕ
  pub elements : List TariffElementV221
  pub last_updated : ℕ

unfoldable pub location_to_v221 : OcpiLocation → LocationV221
location_to_v221 l = record {
  id = l.id;
  party_id = l.party_id;
  country_code = l.country_code;
  publish = l.publish;
  name = l.name;
  address = l.address;
  city = l.city;
  postal_code = l.postal_code;
  country = l.country;
  coordinates = record { latitude = l.coordinates.latitude; longitude = l.coordinates.longitude };
  last_updated = l.last_updated;
}

unfoldable pub location_from_v221 : LocationV221 → OcpiLocation
location_from_v221 p = record {
  id = p.id;
  party_id = p.party_id;
  country_code = p.country_code;
  publish = p.publish;
  name = p.name;
  address = p.address;
  city = p.city;
  postal_code = p.postal_code;
  country = p.country;
  coordinates = record { latitude = p.coordinates.latitude; longitude = p.coordinates.longitude };
  last_updated = p.last_updated;
  evse_status = none;
}

abbrev pub component_to_v221 : OcpiPriceComponent → PriceComponentV221
component_to_v221 c = record { type = c.type; price = c.price; step_size = c.step_size }

abbrev pub element_to_v221 : OcpiTariffElement → TariffElementV221
element_to_v221 e = record { price_components = map component_to_v221 e.price_components }

unfoldable pub tariff_to_v221 : OcpiTariff → TariffV221
tariff_to_v221 t = record {
  id = t.id;
  party_id = t.party_id;
  country_code = t.country_code;
  currency = t.currency;
  elements = map element_to_v221 t.elements;
  last_updated = t.last_updated;
}
