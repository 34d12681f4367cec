-- ===== src/Ocpp/Socket/Teardown.antt =====
-- What the end of a connection does to its charger.
use evaggregator.Ocpp.Events.{publish_disconnected}
use evaggregator.Ocpp.Presence.{
  PresenceState, expire, get_state, handle_disconnect, is_online, mark_offline, online,
  taken_offline,
}
use evaggregator.Ocpp.Socket.{Node, tear_down}
use evaggregator.Ocpp.Calls.{LiveConnectionRegistry, get_connection, is_connection, unregister}
use evaggregator.Base.{
  Option-cases, [], arith, false, if◌then◌else◌, inl, inr, nat_beq_iff, nat_eq, none, some, ℕ, ◌++◌,
  ◌==◌, ◌∷◌, ◌≡◌,
}
use evaggregator.Base.Dict.{lookup, lookup-erase, lookup-insert_self}

live_after :
    (charger connection j : ℕ) (d : LiveConnectionRegistry)
    → get_connection j (unregister charger connection d) ≡ (
        if charger == j
        then (if is_connection connection (lookup charger d) then none else lookup charger d)
        else lookup j d)
unfolding unregister
live_after charger connection j d = ground (arith, lookup-erase charger j d, nat_beq_iff charger j)

-- When a connection ends, it is taken out of the registry if it is still the charger's connection, and
-- a newer one stays; every other charger's connection stays. Either way the charger is offline then, and
-- the disconnect was published if it was online before, and otherwise nothing was.
pub tear_down-effect :
    {T : Type 0} (charger connection : ℕ) (s : Node T)
    → let t = tear_down charger connection s in
      ((j : ℕ)
        → get_connection j t.live ≡ (
            if charger == j
            then (if is_connection connection (lookup charger s.live)
                then none
                else lookup charger s.live)
            else get_connection j s.live))
      × ((is_online (get_state charger t.presence) ≡ false)
          × (((p : PresenceState)
                → get_state charger s.presence ≡ some p
                → p.status ≡ online
                → t.gateway.publisher.disconnected
                  ≡ s.gateway.publisher.disconnected ++ (p.tenant_id, charger) ∷ [])
              × (is_online (get_state charger s.presence) ≡ false
                  → t.gateway.publisher ≡ s.gateway.publisher)))
unfolding tear_down handle_disconnect expire mark_offline publish_disconnected
tear_down-effect charger connection s = (
  λ j. live_after charger connection j s.live,
  elim (Option-cases (get_state charger s.presence)) [
    | inl e ↦ ground (arith, e)
    | inr (p, e) ↦ ground (arith, e, lookup-insert_self charger (taken_offline p) s.presence)
  ],
)
