-- ===== src/Roaming/Bindings.antt =====
-- backend/src/evagg/ocpi/charging_profiles.py: which charger a session runs on.
use evaggregator.Base.{Option, nat_eq, ℕ}
use evaggregator.Base.Dict.{Dict, insert, lookup}

pub record SessionChargerBinding : Type 0 where
  pub charger_id : ℕ
  pub tenant_id : ℕ
  pub connector_id : ℕ

abbrev pub SessionChargerMap : Type 0
SessionChargerMap = Dict ℕ SessionChargerBinding

unfoldable pub set_binding : ℕ → SessionChargerBinding → SessionChargerMap → SessionChargerMap
set_binding id b s = insert id b s

abbrev pub get_charger_for_session : ℕ → SessionChargerMap → Option SessionChargerBinding
get_charger_for_session id s = lookup id s
