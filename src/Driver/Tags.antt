-- ===== src/Driver/Tags.antt =====
-- backend/src/evagg/charging_auth/session_start.py and autocharge.py: the tags made up for drivers and
-- for MAC addresses.
use evaggregator.Base.{ℕ, ◌*◌, ◌+◌}

pub data IdTag : Type 0 where
  driver_tag : ℕ → IdTag
  mac_tag : ℕ → IdTag

-- A tag as the number that goes to the charger.
abbrev pub tag_number : IdTag → ℕ
tag_number (driver_tag d) = 2 * d
tag_number (mac_tag m) = 2 * m + 1
