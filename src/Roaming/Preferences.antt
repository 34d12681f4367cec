-- ===== src/Roaming/Preferences.antt =====
-- backend/src/evagg/ocpi/charging_preferences.py: how a driver wants a session charged.
pub mod Completeness
use evaggregator.Roaming.Bindings.{SessionChargerMap, get_charger_for_session}
use evaggregator.Base.{Bool, Option, false, if◌then◌else◌, nat_eq, none, not, some, true, ℕ, ◌&&◌}
use evaggregator.Base.Dict.{Dict, insert, lookup}

pub data ProfileType : Type 0 where
  cheap fast green regular : ProfileType
  other_type : ℕ → ProfileType

pub data PreferencesStatus : Type 0 where
  accepted departure_required energy_need_required not_possible profile_type_not_supported :
      PreferencesStatus

pub record ChargingPreferences : Type 0 where
  pub session_id : ℕ
  pub profile_type : ProfileType
  pub departure_time : Option ℕ
  pub energy_need_kwh : Option ℕ
  pub discharge_allowed : Option Bool

abbrev pub PreferencesStore : Type 0
PreferencesStore = Dict ℕ ChargingPreferences

abbrev pub is_supported : ProfileType → Bool
is_supported cheap = true
is_supported fast = true
is_supported green = true
is_supported regular = true
is_supported (other_type t) = false

abbrev pub is_fast : ProfileType → Bool
is_fast cheap = false
is_fast fast = true
is_fast green = false
is_fast regular = false
is_fast (other_type t) = false

abbrev pub is_cheap : ProfileType → Bool
is_cheap cheap = true
is_cheap fast = false
is_cheap green = false
is_cheap regular = false
is_cheap (other_type t) = false

abbrev pub is_missing : Option ℕ → Bool
is_missing none = true
is_missing (some x) = false

pub set_charging_preferences :
    ChargingPreferences
    → SessionChargerMap
    → PreferencesStore
    → PreferencesStatus × PreferencesStore
set_charging_preferences p m s = elim (get_charger_for_session p.session_id m) [
  | none ↦ (not_possible, s)
  | some b ↦
      if not (is_supported p.profile_type)
      then (profile_type_not_supported, s)
      else if not (is_fast p.profile_type) && is_missing p.departure_time
      then (departure_required, s)
      else if is_cheap p.profile_type && is_missing p.energy_need_kwh
      then (energy_need_required, s)
      else (accepted, insert p.session_id p s)
]

pub get_charging_preferences : ℕ → PreferencesStore → Option ChargingPreferences
get_charging_preferences session s = lookup session s
