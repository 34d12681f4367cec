-- ===== src/Ocpp/Presence/Examples.antt =====
-- Two chargers on a node, one of which falls silent.
use evaggregator.Ocpp.Presence.{
  PresenceRegistry, PresenceState, check_and_expire_heartbeats, expire, expire_if_stale,
  mark_offline, ocpp16, online,
}
use evaggregator.Ocpp.Presence.Sweeps.{members, stale_in, sweep_exact}
use evaggregator.Ocpp.Events.{EventPublisher}
use evaggregator.Base.{All, [], false, nat_eq, refl, true, ℕ, ◌++◌, ◌∷◌, ◌≡◌}

abbrev state_of : ℕ → ℕ → PresenceState
state_of charger seen = record {
  charger_id = charger;
  tenant_id = 1;
  status = online;
  node_id = 5;
  protocol_version = ocpp16;
  connected_at = 10;
  last_seen = seen;
}

abbrev registry : PresenceRegistry
registry = (7, state_of 7 100) ∷ (8, state_of 8 900) ∷ []

abbrev silent_publisher : EventPublisher
silent_publisher = record {
  disconnected = [];
  status_notifications = [];
  stop_transactions = [];
  ocpp_events = [];
}

sweep_finds_seven :
    (check_and_expire_heartbeats 300 1_000 (7 ∷ 8 ∷ 9 ∷ 7 ∷ []) (registry, silent_publisher)).0
    ≡ 7 ∷ []
unfolding check_and_expire_heartbeats expire_if_stale expire mark_offline
sweep_finds_seven = refl

sweep_exact_example :
    All
      (λ j. stale_in 300 1_000 registry j ≡ true)
      (check_and_expire_heartbeats 300 1_000 (7 ∷ 8 ∷ []) (registry, silent_publisher)).0
    × ((members
            (check_and_expire_heartbeats 300 1_000
              (7 ∷ 8 ∷ [])
              (registry, silent_publisher)).1.1.disconnected
          ≡ members silent_publisher.disconnected
            ++ (check_and_expire_heartbeats 300 1_000 (7 ∷ 8 ∷ []) (registry, silent_publisher)).0)
        × All
            (λ j.
              stale_in 300 1_000
                (check_and_expire_heartbeats 300 1_000
                  (7 ∷ 8 ∷ [])
                  (registry, silent_publisher)).1.0
                j
              ≡ false)
            (7 ∷ 8 ∷ []))
sweep_exact_example = sweep_exact 300 1_000 (7 ∷ 8 ∷ []) registry silent_publisher
