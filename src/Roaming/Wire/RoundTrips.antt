-- ===== src/Roaming/Wire/RoundTrips.antt =====
-- What the adapters keep.
use evaggregator.Roaming.Domain.{OcpiLocation}
use evaggregator.Roaming.Wire.V221.{LocationV221, location_from_v221, location_to_v221}
use evaggregator.Roaming.Wire.V230.{LocationV230, location_from_v230, location_to_v230}
use evaggregator.Base.{none, refl, ◌≡◌}

-- Locations through the adapters. Read from the wire and written again, a 2.2.1 location is the same and
-- a 2.3.0 one is the same but for its facilities. Written in either version and read again, a location
-- is the same but for the status of its charger, which neither schema has. Passed on from a 2.2.1
-- partner to a 2.3.0 one and back, a location loses nothing.
pub adapters_round_trip :
    (p : LocationV221) (q : LocationV230) (l : OcpiLocation)
    → (location_to_v221 (location_from_v221 p) ≡ p)
      × (location_to_v230 (location_from_v230 q) ≡ record q { facilities = none })
      × (location_from_v221 (location_to_v221 l) ≡ record l { evse_status = none })
      × (location_from_v230 (location_to_v230 l) ≡ record l { evse_status = none })
      × (location_to_v221 (location_from_v230 (location_to_v230 (location_from_v221 p))) ≡ p)
unfolding location_to_v221 location_from_v221 location_to_v230 location_from_v230
adapters_round_trip p q l = (refl, refl, refl, refl, refl)
