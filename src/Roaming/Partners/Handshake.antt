-- ===== src/Roaming/Partners/Handshake.antt =====
-- The token of a handshake authenticates its partner.
use evaggregator.Roaming.Partners.{
  Partner, PartnerRegistry, Version, authenticate_partner, connect_partner, find_by_token_a,
  find_by_token_c, first_by, has_token, is_supported, negotiate_credentials, set_negotiated_version,
}
use evaggregator.Base.{
  Bool, Bool-cases, [], arith, inl, inr, nat_eq, none, ok, refl, some, true, ℕ, ◌∷◌, ◌≡◌,
}
use evaggregator.Base.Dict.{beq_refl, insert, lookup, values}

first_by-insert :
    (test : Partner → Bool) (k : ℕ) (v : Partner) (s : PartnerRegistry)
    → first_by test (values s) ≡ none
    → test v ≡ true
    → first_by test (values (insert k v s)) ≡ some v
first_by-insert test k v [] none_yet holds = ground arith
first_by-insert test k v ((j, w) ∷ s) none_yet holds = elim (Bool-cases (test w)) [
  | inl y ↦ ground arith
  | inr n ↦ ground (arith, first_by-insert test k v s)
]

-- A handshake with a known token and a supported version returns the fresh token, and that token then
-- authenticates the partner whose handshake it was, provided that nobody had it before and that the
-- partner is stored under its id.
pub handshake_authenticates :
    (token fresh now : ℕ) (version : Version) (s : PartnerRegistry) {p : Partner}
    → find_by_token_a token s ≡ some p
    → lookup p.id s ≡ some p
    → is_supported version ≡ true
    → find_by_token_c fresh s ≡ none
    → ((negotiate_credentials token version fresh now s).0 ≡ ok fresh)
      × (authenticate_partner fresh (negotiate_credentials token version fresh now s).1 ≡ ok p.id)
unfolding negotiate_credentials authenticate_partner find_by_token_c set_negotiated_version
handshake_authenticates token fresh now version s {p} known stored supported unused =
    rw (supported, known, stored, negotiate_credentials, set_negotiated_version)
      (
        refl,
        rw
            (
              authenticate_partner,
              find_by_token_c,
              first_by-insert (λ q. has_token fresh q.token_c) p.id
                  (connect_partner version fresh now p) s unused (beq_refl fresh),
            )
            refl,
      )
