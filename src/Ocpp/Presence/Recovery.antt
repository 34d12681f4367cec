-- ===== src/Ocpp/Presence/Recovery.antt =====
-- Which transactions a reconnect resumes.
use evaggregator.Ocpp.Presence.{
  Connect, HandshakeResult, PresenceRegistry, Protocol, accepted_as, get_state, handle_handshake,
  handle_reconnect, is_online, mark_online, refused, resolve_handler_codepath,
}
use evaggregator.Ocpp.Transactions.{
  ActiveTransaction, TransactionRepository, get_active_transaction,
}
use evaggregator.Base.{
  Bool, Option-cases, arith, false, inl, inr, nat_eq, none, refl, some, true, ℕ, ◌↔◌, ◌≡◌, ◌≢◌,
}
use evaggregator.Base.Dict.{lookup-insert_self}

abbrev pub accepts : HandshakeResult → Bool
accepts (accepted_as v) = true
accepts (refused r) = false

-- A reconnect resumes a transaction exactly if it is accepted, the charger was online before it, and
-- that transaction is the charger's active one; the presence that it writes itself does not count.
pub resumes_only_online :
    (verify : ℕ → ℕ → Bool) (node : ℕ) (c : Connect) (t : TransactionRepository)
    (s : PresenceRegistry) (x : ActiveTransaction)
    → ((handle_reconnect verify node c t s).0.resumed_transaction ≡ some x) ↔ (
        (accepts (handle_handshake verify node c s).0 ≡ true)
        × ((is_online (get_state c.charger_id s) ≡ true)
            × (get_active_transaction c.charger_id t ≡ some x)))
unfolding handle_reconnect
resumes_only_online verify node c t s x = ground arith

online_after :
    (charger tenant node : ℕ) (v : Protocol) (now : ℕ) (s : PresenceRegistry)
    → is_online (get_state charger (mark_online charger tenant node v now s)) ≡ true
unfolding mark_online
online_after charger tenant node v now s = rw (lookup-insert_self) refl

-- After a connection attempt the charger is online at the time of the attempt if it was accepted, and
-- every charger's presence is as before if it was refused; it is accepted exactly if the subprotocol
-- is supported and the credential verifies.
pub handshake-verdict :
    (verify : ℕ → ℕ → Bool) (node : ℕ) (c : Connect) (s : PresenceRegistry)
    → ((accepts (handle_handshake verify node c s).0 ≡ true) ↔ (
        (resolve_handler_codepath c.subprotocol ≢ none)
        × (verify c.charger_id c.credential ≡ true)))
      × ((accepts (handle_handshake verify node c s).0 ≡ true
            → is_online (get_state c.charger_id (handle_handshake verify node c s).1) ≡ true)
          × (accepts (handle_handshake verify node c s).0 ≡ false
              → (handle_handshake verify node c s).1 ≡ s))
unfolding handle_handshake
handshake-verdict verify node c s = elim (Option-cases (resolve_handler_codepath c.subprotocol)) [
  | inl n ↦ ground arith
  | inr (v, f) ↦ ground (arith, f, online_after c.charger_id c.tenant_id node v c.now s)
]
