-- ===== src/Roaming/Domain.antt =====
-- backend/src/evagg/ocpi/domain.py: the roaming data that business code works on. Strings and times are
-- numbers, and a price in major units is the number of its hundredths.
use evaggregator.Base.{Bool, List, Option, ℕ}
use evaggregator.Base.Int.{ℤ}

pub record OcpiGeoLocation : Type 0 where
  pub latitude : ℕ
  pub longitude : ℕ

pub record OcpiLocation : Type 0 where
  pub id : ℕ
  pub party_id : ℕ
  pub country_code : ℕ
  pub publish : Bool
  pub name : Option ℕ
  pub address : ℕ
  pub city : ℕ
  pub postal_code : Option ℕ
  pub country : ℕ
  pub coordinates : OcpiGeoLocation
  pub last_updated : ℕ
  pub evse_status : Option ℕ

pub data OcpiPriceType : Type 0 where
  energy_price time_price flat_price parking_time_price : OcpiPriceType
  upper_case_of : ℕ → OcpiPriceType

pub record OcpiPriceComponent : Type 0 where
  pub type : OcpiPriceType
  pub price : ℤ
  pub step_size : ℤ

pub record OcpiTariffElement : Type 0 where
  pub price_components : List OcpiPriceComponent

pub record OcpiTariff : Type 0 where
  pub id : ℕ
  pub party_id : ℕ
  pub country_code : ℕ
  pub currency : ℕ
  pub elements : List OcpiTariffElement
  pub last_updated : ℕ
