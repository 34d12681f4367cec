-- ===== src/Ocpp/Registry.antt =====
-- backend/src/evagg/ocpp_gateway/registration.py and connectors.py: the chargers that have booted,
-- and the status of their connectors.
pub mod Boots
use evaggregator.Base.{Bool, Option, false, nat_eq, none, pair_eq, some, true, ℕ}
use evaggregator.Base.Dict.{Dict, insert, lookup}

pub data RegistrationStatus : Type 0 where
  pending accepted rejected : RegistrationStatus

pub record BootResult : Type 0 where
  pub status : RegistrationStatus
  pub is_new_charger : Bool

pub record Charger : Type 0 where
  pub tenant_id : ℕ
  pub vendor : Option ℕ
  pub model : Option ℕ
  pub firmware_version : Option ℕ
  pub status : RegistrationStatus
  pub last_boot_at : ℕ

abbrev pub ChargerRegistry : Type 0
ChargerRegistry = Dict ℕ Charger

pub record Boot : Type 0 where
  pub charger_id : ℕ
  pub tenant_id : ℕ
  pub vendor : Option ℕ
  pub model : Option ℕ
  pub firmware_version : Option ℕ
  pub now : ℕ

abbrev pub new_charger : Boot → Charger
new_charger b = record {
  tenant_id = b.tenant_id;
  vendor = b.vendor;
  model = b.model;
  firmware_version = b.firmware_version;
  status = pending;
  last_boot_at = b.now;
}

abbrev pub rebooted : Boot → Charger → Charger
rebooted b c = record c {
  vendor = b.vendor;
  model = b.model;
  firmware_version = b.firmware_version;
  last_boot_at = b.now;
}

unfoldable pub upsert_on_boot : Boot → ChargerRegistry → BootResult × ChargerRegistry
upsert_on_boot b s = elim (lookup b.charger_id s) [
  | none ↦
      (record { status = pending; is_new_charger = true }, insert b.charger_id (new_charger b) s)
  | some c ↦
      (record { status = c.status; is_new_charger = false }, insert b.charger_id (rebooted b c) s)
]

-- `set_status`, which raises on a charger that is not there
pub set_status : ℕ → RegistrationStatus → ChargerRegistry → Option ChargerRegistry
set_status charger status s = elim (lookup charger s) [
  | none ↦ none
  | some c ↦ some (insert charger (record c { status = status }) s)
]

pub record ConnectorStatus : Type 0 where
  pub charger_id : ℕ
  pub connector_id : ℕ
  pub status : ℕ
  pub error_code : Option ℕ

abbrev pub ConnectorStore : Type 0
ConnectorStore = Dict (ℕ × ℕ) ConnectorStatus

unfoldable pub update_status : ℕ → ℕ → ℕ → Option ℕ → ConnectorStore → ConnectorStore
update_status charger connector status error s =
    insert (charger, connector)
      (record {
        charger_id = charger;
        connector_id = connector;
        status = status;
        error_code = error;
      })
      s

pub get_status : ℕ → ℕ → ConnectorStore → Option ConnectorStatus
get_status charger connector s = lookup (charger, connector) s
