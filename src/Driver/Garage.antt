-- ===== src/Driver/Garage.antt =====
-- backend/src/evagg/driver_app/vehicle_router.py: a driver's routes to the own vehicles. The driver is
-- the one of the bearer token. The id of a new vehicle is an argument of its request.
pub mod Privacy
mod Examples
use evaggregator.Driver.Vehicles.{
  Vehicle, VehicleStore, create, delete, get_vehicle, list_for_driver, set_plug_and_charge,
}
use evaggregator.Gateway.AccessTokens.{
  Authorization, DriverIdentity, Jwt, TokenError, TokenSettings, require_driver_identity,
}
use evaggregator.Base.{
  Bool, List, Option, Result, err, false, if◌then◌else◌, nat_eq, none, ok, some, ℕ, ◌==◌,
}

pub data VehicleRequest : Type 0 where
  get_vehicles : VehicleRequest
  -- id, make, model, connector type and battery capacity
  post_vehicle : ℕ → ℕ → ℕ → ℕ → ℕ → VehicleRequest
  patch_plug_and_charge : ℕ → Bool → VehicleRequest
  delete_vehicle : ℕ → VehicleRequest

pub data VehicleAnswer : Type 0 where
  vehicles_answer : List Vehicle → VehicleAnswer
  vehicle_answer : Vehicle → VehicleAnswer
  -- 204, 404 and 401
  no_content vehicle_not_found : VehicleAnswer
  unauthorized : TokenError → VehicleAnswer

abbrev pub owned_vehicle : ℕ → Option Vehicle → Bool
owned_vehicle driver none = false
owned_vehicle driver (some v) = v.driver_id == driver

abbrev pub plugged : VehicleStore → Option (Vehicle × VehicleStore) → VehicleAnswer × VehicleStore
plugged s none = (vehicle_not_found, s)
plugged s (some (v, s')) = (vehicle_answer v, s')

abbrev pub created : Vehicle × VehicleStore → VehicleAnswer × VehicleStore
created (v, s) = (vehicle_answer v, s)

unfoldable pub respond_vehicle : ℕ → VehicleRequest → VehicleStore → VehicleAnswer × VehicleStore
unfolding create get_vehicle set_plug_and_charge delete
respond_vehicle driver get_vehicles s = (vehicles_answer (list_for_driver driver s), s)
respond_vehicle driver (post_vehicle id make model connector capacity) s =
    created (create id driver make model connector capacity s)
respond_vehicle driver (patch_plug_and_charge id enabled) s =
    if owned_vehicle driver (get_vehicle id s)
    then plugged s (set_plug_and_charge id enabled s)
    else (vehicle_not_found, s)
respond_vehicle driver (delete_vehicle id) s =
    if owned_vehicle driver (get_vehicle id s)
    then (no_content, delete id s)
    else (vehicle_not_found, s)

abbrev pub as_driver :
    Result TokenError DriverIdentity → VehicleRequest → VehicleStore → VehicleAnswer × VehicleStore
as_driver (err e) q s = (unauthorized e, s)
as_driver (ok i) q s = respond_vehicle i.driver_id q s

-- A request with its `Authorization` header: `require_driver_id` runs before the route.
unfoldable pub respond_garage :
    {T : Type 0}
    → Jwt T
    → TokenSettings
    → (ℕ → Option ℕ)
    → Authorization T
    → ℕ
    → VehicleRequest
    → VehicleStore
    → VehicleAnswer × VehicleStore
unfolding respond_vehicle
respond_garage jwt c parse header now q s =
    as_driver (require_driver_identity jwt c parse header now) q s
