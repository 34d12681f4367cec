-- ===== src/Roaming.antt =====
-- backend/src/evagg/ocpi: what roaming partners see and may ask for.
pub mod Bindings
pub mod Commands
pub mod Profiles
pub mod Preferences
pub mod Cdrs
pub mod Partners
pub mod Domain
pub mod Wire
pub mod Locations
pub mod Errors
pub mod Tariffs
pub mod Routes
pub mod Administration
