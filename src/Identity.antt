-- ===== src/Identity.antt =====
-- backend/src/evagg/identity: the drivers' accounts, and the hashes of secrets.
pub mod Text
pub mod Credentials
pub mod Accounts
