-- ===== src/Ocpp.antt =====
-- backend/src/evagg/ocpp_gateway: the gateway that the chargers are connected to.
pub mod Transactions
pub mod Meters
pub mod Registry
pub mod Presence
pub mod Authorization
pub mod Events
pub mod Handlers
pub mod Commands
pub mod Bus
pub mod Calls
pub mod Socket
pub mod Transport
pub mod Publisher
pub mod Admin
