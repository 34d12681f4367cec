-- ===== src/Fleet.antt =====
-- Teams of drivers (backend/src/evagg/fleet).
pub mod Invites
pub mod Usage
pub mod Visibility
