-- ===== src/Roaming/Tariffs.antt =====
-- backend/src/evagg/ocpi/tariff_bridge.py: the tariffs of the backend as partners see them. A price is
-- in hundredths, and the time of the read is an argument.
use evaggregator.Roaming.Domain.{
  OcpiPriceComponent, OcpiPriceType, OcpiTariff, energy_price, flat_price, parking_time_price,
  time_price, upper_case_of,
}
use evaggregator.Billing.Tariffs.{
  ComponentType, Tariff, TariffComponent, TariffService, energy, flat, get_tariff, idle,
  list_all_tariffs, other_type, time,
}
use evaggregator.Base.{List, Option, [], map, none, some, ℕ, ◌∷◌}

abbrev pub ocpi_type : ComponentType → OcpiPriceType
ocpi_type energy = energy_price
ocpi_type time = time_price
ocpi_type flat = flat_price
ocpi_type idle = parking_time_price
ocpi_type (other_type t) = upper_case_of t

abbrev pub to_price_component : TariffComponent → OcpiPriceComponent
to_price_component c = record {
  type = ocpi_type c.type;
  price = c.price_minor_units;
  step_size = c.step_size;
}

pub record OcpiParty : Type 0 where
  pub party_id : ℕ
  pub country_code : ℕ

unfoldable pub to_ocpi_tariff : OcpiParty → ℕ → Tariff → OcpiTariff
to_ocpi_tariff party now t = record {
  id = t.id;
  party_id = party.party_id;
  country_code = party.country_code;
  currency = t.currency;
  elements = record { price_components = map to_price_component t.components } ∷ [];
  last_updated = now;
}

-- `OcpiTariffCatalog.list_all`
unfoldable pub list_ocpi_tariffs : OcpiParty → ℕ → TariffService → List OcpiTariff
unfolding to_ocpi_tariff
list_ocpi_tariffs party now s = map (to_ocpi_tariff party now) (list_all_tariffs s)

abbrev pub converted : OcpiParty → ℕ → Option Tariff → Option OcpiTariff
converted party now none = none
converted party now (some t) = some (to_ocpi_tariff party now t)

-- `OcpiTariffCatalog.get`, the UUID parser being an argument.
unfoldable pub get_ocpi_tariff :
    (ℕ → Option ℕ) → OcpiParty → ℕ → ℕ → TariffService → Option OcpiTariff
unfolding to_ocpi_tariff
get_ocpi_tariff parse party now id s = elim (parse id) [
  | none ↦ none
  | some parsed ↦ converted party now (get_tariff parsed s)
]
