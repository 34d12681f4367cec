-- ===== src/Roaming/Wire.antt =====
-- backend/src/evagg/ocpi/v211_shim, v221 and v230: the wire schemas of the versions, and the adapters
-- between them and the roaming data.
pub mod V211
pub mod V221
pub mod V230
pub mod RoundTrips
