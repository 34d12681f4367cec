-- ===== src/Carbon.antt =====
-- backend/src/evagg/carbon: the carbon intensity of the grid, cached, with a fallback.
pub mod Provider
pub mod Service
