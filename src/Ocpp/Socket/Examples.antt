-- ===== src/Ocpp/Socket/Examples.antt =====
-- A charger that boots, beats, answers a call, and stops a transaction that nobody knows; and a socket
-- that ends after its charger has connected again.
use evaggregator.Ocpp.Calls.{get_connection, is_connection, new_connection}
use evaggregator.Ocpp.Handlers.{
  Origin, boot_notification, handle_frame, handle_stop_transaction, stop_request,
}
use evaggregator.Ocpp.Presence.{PresenceState, get_state, is_online, ocpp16, online}
use evaggregator.Ocpp.Authorization.{AuthStatus, invalid}
use evaggregator.Ocpp.Socket.{
  Node, Received, action_frame, call, go_on, heartbeat, malformed, receive, receive_all, tear_down,
  torn_down,
}
use evaggregator.Ocpp.Transactions.{StopRequest, stop_transaction}
use evaggregator.Ocpp.Socket.Outcomes.{expected_all, reply_id}
use evaggregator.Ocpp.Socket.Replies.{BrokenOff, answered_in_order}
use evaggregator.Ocpp.Socket.Teardown.{tear_down-effect}
use evaggregator.Base.{
  List, [], false, if◌then◌else◌, map, nat_eq, none, refl, some, ℕ, ◌++◌, ◌+◌, ◌==◌, ◌∷◌, ◌≡◌, ◌⊎◌,
}

abbrev no_roaming : ℕ → Unit {0} → AuthStatus × Unit {0}
no_roaming tag u = (invalid, u)

abbrev charger_seven : PresenceState
charger_seven = record {
  charger_id = 7;
  tenant_id = 1;
  status = online;
  node_id = 5;
  protocol_version = ocpp16;
  connected_at = 10;
  last_seen = 20;
}

abbrev node : Node (Unit {0})
node = record {
  gateway = record {
    registry = [];
    connectors = [];
    local_tags = [];
    roaming = tt;
    transactions = record { active_by_charger = []; records = [] };
    meter_values = record {
      max_batch_size = 100;
      flush_interval = 5;
      batches = [];
      buffer = [];
      buffer_opened_at = none;
    };
    publisher = record {
      disconnected = [];
      status_notifications = [];
      stop_transactions = [];
      ocpp_events = [];
    };
    firmware = none;
    latest_readings = none;
  };
  presence = (7, charger_seven) ∷ [];
  live = (7, 2) ∷ [];
  connections = (2, new_connection) ∷ [];
  written = [];
}

abbrev seen : ℕ → Origin
seen now = record { charger_id = 7; tenant_id = 1; now = now; new_id = 30 + now }

abbrev unknown_stop : StopRequest
unknown_stop = record { transaction_id = 99; meter_stop = 1; stop_timestamp = 2; reason = none }

abbrev conversation : List (Origin × Received)
conversation =
    (seen 21, call 1 (action_frame (boot_notification none none none)))
    ∷ (seen 22, malformed)
    ∷ (seen 23, call 2 heartbeat)
    ∷ (seen 24, call 3 (action_frame (stop_request unknown_stop)))
    ∷ (seen 25, call 4 heartbeat)
    ∷ []

breaks_off_at_three : (receive_all no_roaming 300 2 conversation node).0 ≡ torn_down
unfolding receive_all receive handle_frame handle_stop_transaction stop_transaction
breaks_off_at_three = refl

answered_in_order_example :
    let (turn, t) = receive_all no_roaming 300 2 conversation node in
    ((turn ≡ go_on) × (map reply_id t.written ≡ [] ++ expected_all conversation))
    ⊎ ((turn ≡ torn_down) × BrokenOff no_roaming 300 2 conversation node t)
answered_in_order_example = answered_in_order no_roaming 300 2 conversation node

-- Connection 1 is an old one.
tear_down-effect_example :
    let t = tear_down 7 1 node in
    ((j : ℕ)
      → get_connection j t.live ≡ (
          if 7 == j
          then (if is_connection 1 (some 2) then none else some 2)
          else get_connection j node.live))
    × ((is_online (get_state 7 t.presence) ≡ false)
        × (((p : PresenceState)
              → get_state 7 node.presence ≡ some p
              → p.status ≡ online
              → t.gateway.publisher.disconnected ≡ [] ++ (p.tenant_id, 7) ∷ [])
            × (is_online (get_state 7 node.presence) ≡ false
                → t.gateway.publisher ≡ node.gateway.publisher)))
tear_down-effect_example = tear_down-effect 7 1 node
