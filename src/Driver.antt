-- ===== src/Driver.antt =====
-- backend/src/evagg/driver_app and backend/src/evagg/charging_auth: what a driver can do.
pub mod Tags
pub mod Rewards
pub mod Vehicles
pub mod Reservations
pub mod Sessions
pub mod QrTokens
pub mod Certificates
pub mod Starting
pub mod Garage
pub mod Journeys
pub mod Desk
