-- ===== src/Driver/Sessions/Examples.antt =====
-- A driver stops a running session.
use evaggregator.Driver.Sessions.{DriverSessions, Estimate, session_not_found, stop_own_session}
use evaggregator.Driver.Sessions.Endings.{RewardsMatch, stop-rewards, succeeded}
use evaggregator.Roaming.Commands.{Fresh}
use evaggregator.Ocpp.Commands.{CommandOutcome, Dispatch, accepted}
use evaggregator.Ocpp.Presence.{PresenceRegistry, ocpp16, online}
use evaggregator.Ocpp.Transactions.{ActiveTransaction, TransactionRepository}
use evaggregator.Base.{[], err, nat_eq, none, some, ℕ, ◌∷◌, ◌≡◌, ◌≢◌}
use evaggregator.Base.Dict.{lookup}

abbrev accept_all : Dispatch → CommandOutcome
accept_all d = record { status = accepted; reply = none }

abbrev ids : Fresh
ids = record { command_id = 1; session_id = 2; now = 3; responded = 4 }

abbrev presence : PresenceRegistry
presence =
    (
      7,
      record {
        charger_id = 7;
        tenant_id = 1;
        status = online;
        node_id = 5;
        protocol_version = ocpp16;
        connected_at = 10;
        last_seen = 20;
      },
    )
    ∷ []

abbrev running : DriverSessions
running = record {
  bindings = (20, record { charger_id = 7; tenant_id = 1; connector_id = 1 }) ∷ [];
  owner = (20, 8) ∷ [];
  rewards = [];
  history = [];
  command_log = [];
}

abbrev transactions : TransactionRepository
transactions = record {
  active_by_charger =
      (7, record { id = 3; charger_id = 7; connector_id = 1; id_tag = 4; start_timestamp = 1 })
      ∷ [];
  records = [];
}

abbrev estimate_nothing : ActiveTransaction → ℕ → Estimate
estimate_nothing t now = record { energy_kwh = 0; cost_minor_units = 0; currency = 0 }

stop-rewards_example :
    (lookup 20 running.owner ≢ some 8
      → stop_own_session accept_all 30 presence estimate_nothing ids 20 8 1 transactions running
        ≡ (err session_not_found, running))
    × RewardsMatch 8
        (succeeded
          (stop_own_session accept_all 30 presence estimate_nothing ids 20 8 1 transactions
            running).0)
        running
        (stop_own_session accept_all 30 presence estimate_nothing ids 20 8 1 transactions running).1
stop-rewards_example =
    stop-rewards accept_all 30 presence estimate_nothing ids 20 8 1 transactions running
