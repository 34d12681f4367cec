-- ===== src/Roaming/Wire/V230.antt =====
-- backend/src/evagg/ocpi/v230/models.py and adapters.py.
use evaggregator.Roaming.Domain.{
  OcpiLocation, OcpiPriceComponent, OcpiPriceType, OcpiTariff, OcpiTariffElement,
}
use evaggregator.Base.{Bool, List, Option, map, none, ℕ}
use evaggregator.Base.Int.{ℤ}

pub record GeoLocationV230 : Type 0 where
  pub latitude : ℕ
  pub longitude : ℕ

pub record LocationV230 : Type 0 where
  pub id : ℕ
  pub party_id : ℕ
  pub country_code : ℕ
  pub publish : Bool
  pub name : Option ℕ
  pub address : ℕ
  pub city : ℕ
  pub postal_code : Option ℕ
  pub country : ℕ
  pub coordinates : GeoLocationV230
  pub facilities : Option (List ℕ)
  pub last_updated : ℕ

pub record PriceComponentV230 : Type 0 where
  pub type : OcpiPriceType
  pub price : ℤ
  pub step_size : ℤ

pub record TariffElementV230 : Type 0 where
  pub price_components : List PriceComponentV230

pub record TariffV230 : Type 0 where
  pub id : ℕ
  pub party_id : ℕ
  pub country_code : ℕ
  pub currency : ℕ
  pub elements : List TariffElementV230
  pub last_updated : ℕ

unfoldable pub location_to_v230 : OcpiLocation → LocationV230
location_to_v230 l = record {
  id = l.id;
  party_id = l.party_id;
  country_code = l.country_code;
  publish = l.publish;
  name = l.name;
  address = l.address;
  city = l.city;
  postal_code = l.postal_code;
  country = l.country;
  coordinates = record { latitude = l.coordinates.latitude; longitude = l.coordinates.longitude };
  facilities = none;
  last_updated = l.last_updated;
}

unfoldable pub location_from_v230 : LocationV230 → OcpiLocation
location_from_v230 p = record {
  id = p.id;
  party_id = p.party_id;
  country_code = p.country_code;
  publish = p.publish;
  name = p.name;
  address = p.address;
  city = p.city;
  postal_code = p.postal_code;
  country = p.country;
  coordinates = record { latitude = p.coordinates.latitude; longitude = p.coordinates.longitude };
  last_updated = p.last_updated;
  evse_status = none;
}

abbrev pub component_to_v230 : OcpiPriceComponent → PriceComponentV230
component_to_v230 c = record { type = c.type; price = c.price; step_size = c.step_size }

abbrev pub element_to_v230 : OcpiTariffElement → TariffElementV230
element_to_v230 e = record { price_components = map component_to_v230 e.price_components }

unfoldable pub tariff_to_v230 : OcpiTariff → TariffV230
tariff_to_v230 t = record {
  id = t.id;
  party_id = t.party_id;
  country_code = t.country_code;
  currency = t.currency;
  elements = map element_to_v230 t.elements;
  last_updated = t.last_updated;
}
