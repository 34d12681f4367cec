-- ===== src/Gateway.antt =====
-- The API gateway's own state (backend/src/evagg/gateway), and the trust that the backend puts in it.
pub mod RefreshTokens
pub mod RateLimit
pub mod AccessTokens
pub mod App
pub mod Tenancy
