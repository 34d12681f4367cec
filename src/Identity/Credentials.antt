-- ===== src/Identity/Credentials.antt =====
-- backend/src/evagg/ocpp_gateway/credentials.py: hashed secrets, and the chargers' credentials. The
-- key derivation, PBKDF2-HMAC, is a parameter, and the salt an argument.
pub mod Chargers
use evaggregator.Base.{Bool, false, nat_eq, none, some, ℕ, ◌==◌}
use evaggregator.Base.Dict.{Dict, insert, lookup}

-- `pbkdf2${salt}${derived}`, or any other text.
pub data StoredHash : Type 0 where
  pbkdf2 : ℕ → ℕ → StoredHash
  other_scheme : ℕ → StoredHash

module _ (derive : ℕ → ℕ → ℕ) where
  unfoldable pub hash_credential : ℕ → ℕ → StoredHash
  hash_credential salt secret = pbkdf2 salt (derive secret salt)

  unfoldable pub verify_credential : ℕ → StoredHash → Bool
  verify_credential secret (pbkdf2 salt derived) = derive secret salt == derived
  verify_credential secret (other_scheme text) = false

  unfoldable pub set_credential : ℕ → ℕ → ℕ → Dict ℕ StoredHash → Dict ℕ StoredHash
  unfolding hash_credential
  set_credential charger salt secret s = insert charger (hash_credential salt secret) s

  -- `InMemoryCredentialVerifier.verify`
  unfoldable pub verify : Dict ℕ StoredHash → ℕ → ℕ → Bool
  unfolding verify_credential
  verify s charger credential = elim (lookup charger s) [
    | none ↦ false
    | some stored ↦ verify_credential credential stored
  ]
