-- ===== src/Driver/Journeys/Plans.antt =====
-- What a planned route says.
use evaggregator.Driver.Journeys.{
  Maths, Point, RouteError, RouteEstimate, RoutePlan, SuggestedCharger, distance_to,
  nearest_published_charger, not_computed, plan_with, published, routing_failed, suggestion,
  usable_range_km, vehicle_not_found,
}
use evaggregator.Driver.Journeys.Nearest.{Member}
use evaggregator.Base.{
  All, Bool, Option, Result, [], err, false, nat_eq, none, ok, some, true, ℕ, ◌≡◌, ◌≢◌,
}
use evaggregator.Driver.Vehicles.{Vehicle, VehicleStore}
use evaggregator.Roaming.Domain.{OcpiLocation}
use evaggregator.Roaming.Locations.{LocationRepository}
use evaggregator.Base.Dict.{lookup}

module _ {F : Type 0} (ops : Maths F) (get_route : Point F → Point F → Option (RouteEstimate F))
    (vehicles : VehicleStore) (driver vehicle : ℕ) (origin destination : Point F)
    (locations : LocationRepository) where
  -- The estimate, and whether the trip is longer than the vehicle's range.
  pub record IsEstimate (e : RouteEstimate F) (far : Bool) : Type 0 where
    pub car : Vehicle
    pub known : lookup vehicle vehicles ≡ some car
    pub own : car.driver_id ≡ driver
    pub route : get_route origin destination ≡ some e
    pub range : ops.lt (usable_range_km ops car) e.distance_km ≡ far

  -- The plan, by what it rests on.
  pub data Planned : Result RouteError (RoutePlan F) → Type 0 where
    refused :
        ((v : Vehicle) → lookup vehicle vehicles ≡ some v → v.driver_id ≢ driver)
        → Planned (err vehicle_not_found)
    no_route :
        (v : Vehicle)
        → lookup vehicle vehicles ≡ some v
        → v.driver_id ≡ driver
        → get_route origin destination ≡ none
        → Planned (err routing_failed)
    reached : (e : RouteEstimate F) → IsEstimate e false → Planned (ok (plan_with ops false e none))
    stranded :
        (e : RouteEstimate F)
        → IsEstimate e true
        → published locations ≡ []
        → Planned (ok (plan_with ops true e none))
    stop :
        (e : RouteEstimate F) (l : OcpiLocation) (d : F) (charger : SuggestedCharger F)
        → IsEstimate e true
        → Member l (published locations)
        → distance_to ops destination l ≡ some d
        → All
            (λ k. (x : F) × (distance_to ops destination k ≡ some x) × (ops.lt x d ≡ false))
            (published locations)
        → suggestion ops l ≡ some charger
        → Planned (ok (plan_with ops true e (some charger)))
    uncomputed :
        (e : RouteEstimate F)
        → IsEstimate e true
        → nearest_published_charger ops destination locations ≡ none
        → Planned (err not_computed)
