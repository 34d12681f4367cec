-- ===== src/Roaming/Profiles/Examples.antt =====
-- A profile of 11 kW on a connector of 22 kW.
use evaggregator.Roaming.Profiles.{
  ActiveChargingProfile, get_active_profile, number, profile_accepted, set_profile, uses_watts,
  watts,
}
use evaggregator.Base.{All, [], none, some, true, ℕ, ◌∷◌, ◌≡◌, ◌≢◌}
use evaggregator.Roaming.Profiles.Capacity.{IsWithin, profile-safety}
use evaggregator.Roaming.Commands.{Fresh}
use evaggregator.Roaming.Bindings.{
  SessionChargerBinding, SessionChargerMap, get_charger_for_session,
}
use evaggregator.Ocpp.Commands.{Capacities, CommandOutcome, Dispatch, accepted, get_max_power_watts}
use evaggregator.Ocpp.Presence.{PresenceRegistry, ocpp16, online}

abbrev accept_all : Dispatch → CommandOutcome
accept_all d = record { status = accepted; reply = none }

abbrev ids : Fresh
ids = record { command_id = 1; session_id = 2; now = 3; responded = 4 }

abbrev presence : PresenceRegistry
presence =
    (
      7,
      record {
        charger_id = 7;
        tenant_id = 1;
        status = online;
        node_id = 5;
        protocol_version = ocpp16;
        connected_at = 10;
        last_seen = 20;
      },
    )
    ∷ []

abbrev capacities : Capacities
capacities = ((7, 1), 22_000) ∷ []

abbrev bindings : SessionChargerMap
bindings = (2, record { charger_id = 7; tenant_id = 1; connector_id = 1 }) ∷ []

abbrev profile : ActiveChargingProfile
profile = record {
  session_id = 2;
  charging_rate_unit = watts;
  periods = record { start_period = 0; limit = number 11_000 0 } ∷ [];
  duration = none;
  min_charging_rate = none;
  start_date_time = none;
}

profile-safety_example :
    ((set_profile accept_all 30 presence capacities ids profile bindings ([], [])).0
        ≡ profile_accepted
      → (get_active_profile 2 bindings
            (set_profile accept_all 30 presence capacities ids profile bindings ([], [])).1.0
          ≡ (profile_accepted, some profile))
        × (uses_watts watts ≡ true)
        × ((b : SessionChargerBinding) (most : ℕ)
            → get_charger_for_session 2 bindings ≡ some b
            → get_max_power_watts b.charger_id b.connector_id capacities ≡ some most
            → All (λ x. IsWithin most x.limit) profile.periods))
    × ((set_profile accept_all 30 presence capacities ids profile bindings ([], [])).0
          ≢ profile_accepted
        → (set_profile accept_all 30 presence capacities ids profile bindings ([], [])).1.0 ≡ [])
profile-safety_example = profile-safety accept_all 30 presence capacities ids profile bindings [] []
