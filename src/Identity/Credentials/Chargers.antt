-- ===== src/Identity/Credentials/Chargers.antt =====
-- Which chargers may connect.
use evaggregator.Ocpp.Presence.{
  Connect, PresenceRegistry, Protocol, accepted_as, handle_handshake, named,
  resolve_handler_codepath,
}
use evaggregator.Identity.Credentials.{
  StoredHash, hash_credential, set_credential, verify, verify_credential,
}
use evaggregator.Base.{arith, nat_eq, ℕ, ◌↔◌, ◌≡◌, ◌≢◌}
use evaggregator.Base.Dict.{Dict, lookup-insert}

-- After a charger's credential is set, exactly that secret, up to a collision of the key derivation,
-- lets it connect with a protocol that is served, and every other charger's credential is as before.
pub connects_with_credential :
    (derive : ℕ → ℕ → ℕ) (charger salt secret node : ℕ) (s : Dict ℕ StoredHash) (c : Connect)
    (p : PresenceRegistry) (v : Protocol)
    → c.subprotocol ≡ named v
    → let s' = set_credential derive charger salt secret s in
      (c.charger_id ≡ charger
        → ((handle_handshake (verify derive s') node c p).0 ≡ accepted_as v)
          ↔ (derive c.credential salt ≡ derive secret salt))
      × (c.charger_id ≢ charger
          → handle_handshake (verify derive s') node c p
            ≡ handle_handshake (verify derive s) node c p)
unfolding set_credential hash_credential verify verify_credential handle_handshake
    resolve_handler_codepath
connects_with_credential derive charger salt secret node s c p v served =
    let e = lookup-insert charger c.charger_id (hash_credential derive salt secret) s in
    (λ own. ground (arith, e, own, served), λ other. ground (arith, e, other, served))
