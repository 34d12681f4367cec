-- ===== src/Roaming/Wire/V211.antt =====
-- backend/src/evagg/ocpi/v211_shim/models.py and adapters.py: the read-only version, with no way back.
use evaggregator.Roaming.Domain.{OcpiLocation, OcpiTariff}
use evaggregator.Base.{Option, ℕ}

pub record GeoLocationV211 : Type 0 where
  pub latitude : ℕ
  pub longitude : ℕ

-- The type is always "ON_STREET", which is 0.
pub record LocationV211 : Type 0 where
  pub id : ℕ
  pub type : ℕ
  pub name : Option ℕ
  pub address : ℕ
  pub city : ℕ
  pub postal_code : Option ℕ
  pub country : ℕ
  pub coordinates : GeoLocationV211
  pub last_updated : ℕ

pub record TariffV211 : Type 0 where
  pub id : ℕ
  pub currency : ℕ
  pub last_updated : ℕ

unfoldable pub location_to_v211 : OcpiLocation → LocationV211
location_to_v211 l = record {
  id = l.id;
  type = 0;
  name = l.name;
  address = l.address;
  city = l.city;
  postal_code = l.postal_code;
  country = l.country;
  coordinates = record { latitude = l.coordinates.latitude; longitude = l.coordinates.longitude };
  last_updated = l.last_updated;
}

unfoldable pub tariff_to_v211 : OcpiTariff → TariffV211
tariff_to_v211 t = record { id = t.id; currency = t.currency; last_updated = t.last_updated }
