-- ===== src/Ocpp/Presence.antt =====
-- backend/src/evagg/ocpp_gateway/presence.py and connection_manager.py: which chargers are connected,
-- and what a connection does. Checking a credential is a parameter.
pub mod Sweeps
pub mod Recovery
mod Examples
use evaggregator.Ocpp.Transactions.{
  ActiveTransaction, TransactionRepository, get_active_transaction,
}
use evaggregator.Ocpp.Events.{EventPublisher, publish_disconnected}
use evaggregator.Ocpp.Registry.{Boot, BootResult, ChargerRegistry, upsert_on_boot}
use evaggregator.Base.{
  Bool, List, Option, [], false, if◌then◌else◌, ltb, nat_eq, none, some, true, ℕ, ◌*◌, ◌++◌, ◌+◌,
  ◌∷◌,
}
use evaggregator.Base.Dict.{Dict, insert, lookup}

pub data Presence : Type 0 where
  online offline : Presence

pub data Protocol : Type 0 where
  ocpp16 ocpp201 : Protocol

pub record PresenceState : Type 0 where
  pub charger_id : ℕ
  pub tenant_id : ℕ
  pub status : Presence
  pub node_id : ℕ
  pub protocol_version : Protocol
  pub connected_at : ℕ
  pub last_seen : ℕ

abbrev pub PresenceRegistry : Type 0
PresenceRegistry = Dict ℕ PresenceState

abbrev pub get_state : ℕ → PresenceRegistry → Option PresenceState
get_state charger s = lookup charger s

pub mark_online : ℕ → ℕ → ℕ → Protocol → ℕ → PresenceRegistry → PresenceRegistry
mark_online charger tenant node version now s =
    insert charger
      (record {
        charger_id = charger;
        tenant_id = tenant;
        status = online;
        node_id = node;
        protocol_version = version;
        connected_at = now;
        last_seen = now;
      })
      s

pub refresh : ℕ → ℕ → PresenceRegistry → PresenceRegistry
refresh charger now s = elim (lookup charger s) [
  | none ↦ s
  | some p ↦ insert charger (record p { last_seen = now; status = online }) s
]

abbrev pub taken_offline : PresenceState → PresenceState
taken_offline p = record p { status = offline }

unfoldable pub mark_offline : ℕ → PresenceRegistry → PresenceRegistry
mark_offline charger s = elim (lookup charger s) [
  | none ↦ s
  | some p ↦ insert charger (taken_offline p) s
]

abbrev pub is_online : Option PresenceState → Bool
is_online none = false
is_online (some p) = elim p.status [ online ↦ true | offline ↦ false ]

pub data Refusal : Type 0 where
  unsupported_subprotocol invalid_credentials : Refusal

pub data HandshakeResult : Type 0 where
  accepted_as : Protocol → HandshakeResult
  refused : Refusal → HandshakeResult

pub record ReconnectResult : Type 0 where
  pub handshake : HandshakeResult
  pub resumed_transaction : Option ActiveTransaction

-- The `Sec-WebSocket-Protocol` value, a name of a protocol or any other string.
pub data Subprotocol : Type 0 where
  named : Protocol → Subprotocol
  other_name : ℕ → Subprotocol
  no_name : Subprotocol

unfoldable pub resolve_handler_codepath : Subprotocol → Option Protocol
resolve_handler_codepath (named p) = some p
resolve_handler_codepath (other_name n) = none
resolve_handler_codepath no_name = none

pub record Connect : Type 0 where
  pub charger_id : ℕ
  pub tenant_id : ℕ
  pub credential : ℕ
  pub subprotocol : Subprotocol
  pub now : ℕ

-- `verify charger credential` is the credential verifier, `node` the node of this manager.
module _ (verify : ℕ → ℕ → Bool) (node : ℕ) where
  unfoldable pub handle_handshake : Connect → PresenceRegistry → HandshakeResult × PresenceRegistry
  unfolding resolve_handler_codepath mark_online
  handle_handshake c s = elim (resolve_handler_codepath c.subprotocol) [
    | none ↦ (refused unsupported_subprotocol, s)
    | some version ↦
        if verify c.charger_id c.credential
        then (accepted_as version, mark_online c.charger_id c.tenant_id node version c.now s)
        else (refused invalid_credentials, s)
  ]

  abbrev pub resumable : HandshakeResult → Bool → Bool
  resumable (refused r) eligible = false
  resumable (accepted_as v) eligible = eligible

  -- What may be resumed is read before the handshake writes the presence.
  unfoldable pub handle_reconnect :
      Connect → TransactionRepository → PresenceRegistry → ReconnectResult × PresenceRegistry
  unfolding get_active_transaction
  handle_reconnect c t s =
      let eligible = is_online (get_state c.charger_id s) in
      let (h, s') = handle_handshake c s in
      (
        record {
          handshake = h;
          resumed_transaction =
              if resumable h eligible then get_active_transaction c.charger_id t else none;
        },
        s',
      )

pub handle_inbound_frame : ℕ → ℕ → PresenceRegistry → PresenceRegistry
unfolding refresh
handle_inbound_frame charger now s = refresh charger now s

-- A charger is taken offline and the disconnect is published.
unfoldable pub expire :
    ℕ → PresenceState → PresenceRegistry × EventPublisher → PresenceRegistry × EventPublisher
expire charger p (s, e) = (mark_offline charger s, publish_disconnected p.tenant_id charger e)

unfoldable pub handle_disconnect :
    ℕ → PresenceRegistry × EventPublisher → PresenceRegistry × EventPublisher
handle_disconnect charger (s, e) = elim (get_state charger s) [
  | none ↦ (s, e)
  | some p ↦ elim p.status [ offline ↦ (s, e) | online ↦ expire charger p (s, e) ]
]

-- `now - state.last_seen > heartbeat_interval_seconds * 2`, for a state that is online
abbrev pub is_stale : ℕ → ℕ → Option PresenceState → Bool
is_stale interval now none = false
is_stale interval now (some p) = elim p.status [
  | offline ↦ false
  | online ↦ ltb (p.last_seen + interval * 2) now
]

-- One pass over a charger: taken offline and published if it is stale.
unfoldable pub expire_if_stale :
    ℕ → ℕ → ℕ → PresenceRegistry × EventPublisher → List ℕ × (PresenceRegistry × EventPublisher)
expire_if_stale interval now charger (s, e) = elim (get_state charger s) [
  | none ↦ ([], (s, e))
  | some p ↦
      if is_stale interval now (some p)
      then (charger ∷ [], expire charger p (s, e))
      else ([], (s, e))
]

unfoldable pub check_and_expire_heartbeats :
    ℕ
    → ℕ
    → List ℕ
    → PresenceRegistry × EventPublisher
    → List ℕ × (PresenceRegistry × EventPublisher)
check_and_expire_heartbeats interval now [] st = ([], st)
check_and_expire_heartbeats interval now (c ∷ cs) st =
    let (newly, st') = expire_if_stale interval now c st in
    let (rest, final) = check_and_expire_heartbeats interval now cs st' in (newly ++ rest, final)

pub handle_boot_notification : Boot → ChargerRegistry → BootResult × ChargerRegistry
unfolding upsert_on_boot
handle_boot_notification b s = upsert_on_boot b s
