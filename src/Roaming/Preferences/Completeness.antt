-- ===== src/Roaming/Preferences/Completeness.antt =====
-- Exactly the complete preferences of known sessions are stored.
use evaggregator.Roaming.Preferences.{
  ChargingPreferences, PreferencesStore, ProfileType, accepted, cheap, fast,
  get_charging_preferences, green, is_missing, other_type, regular, set_charging_preferences,
}
use evaggregator.Roaming.Bindings.{SessionChargerMap, get_charger_for_session}
use evaggregator.Base.{
  Bool, Option, arith, false, nat_eq, none, not, some, true, ℕ, ◌&&◌, ◌↔◌, ◌≡◌, ◌≢◌,
}
use evaggregator.Base.Dict.{lookup-insert_self}

-- The profile type is one of the four, with a departure time unless it is fast, and with an energy
-- need if it is cheap.
abbrev pub has_needs : ProfileType → Option ℕ → Option ℕ → Bool
has_needs cheap departure energy = not (is_missing departure) && not (is_missing energy)
has_needs fast departure energy = true
has_needs green departure energy = not (is_missing departure)
has_needs regular departure energy = not (is_missing departure)
has_needs (other_type t) departure energy = false

-- Preferences are accepted exactly if the session is bound to a charger and they are complete; then
-- they are the ones that the session has, and otherwise nothing is stored.
pub preferences-verdict :
    (p : ChargingPreferences) (m : SessionChargerMap) (s : PreferencesStore)
    → (((set_charging_preferences p m s).0 ≡ accepted) ↔ (
        (get_charger_for_session p.session_id m ≢ none)
        × (has_needs p.profile_type p.departure_time p.energy_need_kwh ≡ true)))
      × (((set_charging_preferences p m s).0 ≡ accepted
            → get_charging_preferences p.session_id (set_charging_preferences p m s).1 ≡ some p)
          × ((set_charging_preferences p m s).0 ≢ accepted
              → (set_charging_preferences p m s).1 ≡ s))
unfolding set_charging_preferences get_charging_preferences
preferences-verdict p m s = ground (arith, lookup-insert_self p.session_id p s)
