-- ===== src/Ocpp/Socket.antt =====
-- backend/src/evagg/ocpp_gateway/ws_app.py, the websocket endpoint: the handshake, the loop over the
-- frames that a charger sends, and what is done when the connection ends. A received frame stands for
-- what was received, with its timestamps read. One node is shared by its connections.
pub mod Outcomes
pub mod Replies
pub mod Teardown
mod Examples
use evaggregator.Ocpp.Calls.{
  LiveConnection, LiveConnectionRegistry, new_connection, register, unregister,
}
use evaggregator.Ocpp.Calls.Waiting.{CallAnswer, take_answer}
use evaggregator.Ocpp.Handlers.{
  Frame, FrameError, Gateway, Origin, Reply, firmware_error, handle_frame, transaction_error,
  unsupported_action,
}
use evaggregator.Ocpp.Presence.{
  Connect, HandshakeResult, PresenceRegistry, accepted_as, handle_disconnect, handle_handshake,
  handle_inbound_frame, refused,
}
use evaggregator.Ocpp.Authorization.{AuthStatus}
use evaggregator.Base.{
  Bool, List, Option, Result, [], err, false, if◌then◌else◌, nat_eq, none, ok, some, true, ℕ, ◌++◌,
  ◌∷◌,
}
use evaggregator.Base.Dict.{Dict, insert, lookup}

-- A CALL's action and payload. The last three are the payloads that fail to be read: with a ValueError,
-- with a KeyError or a TypeError, and with what the loop does not catch, such as the AttributeError of
-- `uuid.UUID` on a number.
pub data InboundCall : Type 0 where
  heartbeat : InboundCall
  action_frame : Frame → InboundCall
  wrong_value wrong_shape unreadable_payload : InboundCall

pub data Received : Type 0 where
  -- a frame that is no JSON text, for which `receive_json` raises
  not_json : Received
  -- not a list, or with fewer than two elements
  malformed : Received
  -- a CALL_RESULT or a CALL_ERROR: the answer to a call of the gateway
  answer_frame : CallAnswer → Received
  -- an answer whose id is a list or an object, which is no key of a dict
  unhashable_answer : Received
  -- any other type, or a CALL with fewer than three elements
  not_a_call : Received
  call : ℕ → InboundCall → Received

pub data CallErrorCode : Type 0 where
  protocol_error not_supported formation_violation : CallErrorCode

-- What is written to the socket: no unique id stands for "unknown".
pub data Sent : Type 0 where
  call_result : ℕ → Reply → Sent
  heartbeat_result : ℕ → ℕ → Sent
  call_error : Option ℕ → CallErrorCode → Sent

-- The shared state of a node, and of one connection: what was written to its socket.
pub record Node (T : Type 0) : Type 0 where
  pub gateway : Gateway T
  pub presence : PresenceRegistry
  pub live : LiveConnectionRegistry
  pub connections : Dict ℕ LiveConnection
  pub written : List Sent

pub data Turn : Type 0 where
  -- the loop goes on, or an exception that it does not catch ends the connection
  go_on torn_down : Turn

-- The exceptions that `except ValueError` catches: `UnknownTransactionError` is none of them, and a
-- stop raises nothing else.
abbrev pub is_value_error : FrameError → Bool
is_value_error (unsupported_action a) = true
is_value_error (transaction_error e) = false
is_value_error (firmware_error e) = true

-- What becomes of a connection: closed with a code before it is accepted, or ended by the charger or
-- by an exception.
pub data Ending : Type 0 where
  closed : ℕ → Ending
  ended : Turn → Ending

module _ {T : Type 0} where
  abbrev pub write : Sent → Node T → Node T
  write x s = record s { written = s.written ++ x ∷ [] }

  unfoldable pub handle_answer : ℕ → CallAnswer → Node T → Node T
  handle_answer connection a s = elim (lookup connection s.connections) [
    | none ↦ s
    | some c ↦ record s { connections = insert connection (take_answer a c).1 s.connections }
  ]

  -- What follows the handler: a result, an error, or the end of the connection.
  abbrev pub reply_to : ℕ → Result FrameError Reply → Node T → Turn × Node T
  reply_to unique_id (ok r) s = (go_on, write (call_result unique_id r) s)
  reply_to unique_id (err e) s =
      if is_value_error e
      then (go_on, write (call_error (some unique_id) not_supported) s)
      else (torn_down, s)

  abbrev pub handled : ℕ → Node T → Result FrameError Reply × Gateway T → Turn × Node T
  handled unique_id s (r, g) = reply_to unique_id r (record s { gateway = g })

  -- The `finally` block.
  unfoldable pub tear_down : ℕ → ℕ → Node T → Node T
  tear_down charger connection s =
      let (presence', publisher') = handle_disconnect charger (s.presence, s.gateway.publisher) in
      record s {
        live = unregister charger connection s.live;
        presence = presence';
        gateway = record s.gateway { publisher = publisher' };
      }

  abbrev pub accept : ℕ → ℕ → Node T → Node T
  accept charger connection s = record s {
    live = register charger connection s.live;
    connections = insert connection new_connection s.connections;
  }

module _ {T : Type 0} (roaming_check : ℕ → T → AuthStatus × T) (interval : ℕ) where
  abbrev pub handle_action : Origin → ℕ → InboundCall → Node T → Turn × Node T
  handle_action o unique_id heartbeat s = (go_on, write (heartbeat_result unique_id o.now) s)
  handle_action o unique_id (action_frame f) s =
      handled unique_id s (handle_frame roaming_check interval o f s.gateway)
  handle_action o unique_id wrong_value s =
      (go_on, write (call_error (some unique_id) not_supported) s)
  handle_action o unique_id wrong_shape s =
      (go_on, write (call_error (some unique_id) formation_violation) s)
  handle_action o unique_id unreadable_payload s = (torn_down, s)

  -- One pass of the loop. The presence is refreshed before the call is handled.
  unfoldable pub receive : ℕ → Origin → Received → Node T → Turn × Node T
  receive connection o not_json s = (torn_down, s)
  receive connection o malformed s = (go_on, write (call_error none protocol_error) s)
  receive connection o (answer_frame a) s = (go_on, handle_answer connection a s)
  receive connection o unhashable_answer s = (torn_down, s)
  receive connection o not_a_call s = (go_on, write (call_error none protocol_error) s)
  receive connection o (call unique_id action) s =
      handle_action o unique_id action
        (record s { presence = handle_inbound_frame o.charger_id o.now s.presence })

  -- The loop, until the socket is closed after the last frame or an exception ends it.
  unfoldable pub receive_all : ℕ → List (Origin × Received) → Node T → Turn × Node T
  receive_all connection [] s = (go_on, s)
  receive_all connection ((o, x) ∷ xs) s =
      let (turn, s') = receive connection o x s in
      let rest = receive_all connection xs s' in
      elim turn [ go_on ↦ rest | torn_down ↦ (torn_down, s') ]

  abbrev pub after_frames : ℕ → ℕ → Turn × Node T → Ending × Node T
  after_frames charger connection (turn, s) = (ended turn, tear_down charger connection s)

  abbrev pub after_handshake :
      ℕ
      → ℕ
      → List (Origin × Received)
      → Node T
      → HandshakeResult × PresenceRegistry
      → Ending × Node T
  after_handshake charger connection frames s (refused r, p) =
      (closed 4003, record s { presence = p })
  after_handshake charger connection frames s (accepted_as v, p) =
      after_frames charger connection
        (receive_all connection frames (accept charger connection (record s { presence = p })))

  -- `ocpp_endpoint`, the tenant being the query parameter if it is there and is a UUID.
  unfoldable pub ocpp_endpoint :
      (ℕ → ℕ → Bool) → ℕ → Option Connect → ℕ → List (Origin × Received) → Node T → Ending × Node T
  ocpp_endpoint verify node none connection frames s = (closed 4001, s)
  ocpp_endpoint verify node (some c) connection frames s =
      after_handshake c.charger_id connection frames s (handle_handshake verify node c s.presence)
