-- ===== src/Driver/Journeys/Examples.antt =====
-- A trip of 300 km in a car that comes 222 km far, in numbers instead of floats. The angle functions
-- are the identity, so that the distance is a rough one.
use evaggregator.Driver.Journeys.{Maths, RouteEstimate}
use evaggregator.Base.{Bool, Option, [], false, ltb, none, some, true, ℕ, ◌*◌, ◌+◌, ◌-◌, ◌/◌, ◌∷◌}
use evaggregator.Driver.Vehicles.{VehicleStore, new_vehicle}
use evaggregator.Roaming.Domain.{OcpiLocation}
use evaggregator.Roaming.Locations.{LocationRepository}

abbrev numbers : Maths ℕ
numbers = record {
  minus = λ a b. a - b;
  plus = λ a b. a + b;
  times = λ a b. a * b;
  over = λ a b. a / b;
  lt = ltb;
  is_nan = λ a. false;
  radians = λ a. a;
  square = λ a. some (a * a);
  sin = λ a. some a;
  cos = λ a. some a;
  asin = λ a. some a;
  sqrt = λ a. some a;
  hundredths = λ n. n;
  float = λ n. some n;
  capacity = λ n. n;
}

abbrev route : ℕ × ℕ → ℕ × ℕ → Option (RouteEstimate ℕ)
route a b = some (record { distance_km = 300; duration_minutes = 200 })

abbrev station : ℕ → ℕ → Bool → OcpiLocation
station id latitude publish = record {
  id = id;
  party_id = 1;
  country_code = 1;
  publish = publish;
  name = none;
  address = 1;
  city = 1;
  postal_code = none;
  country = 1;
  coordinates = record { latitude = latitude; longitude = 0 };
  last_updated = 1;
  evse_status = none;
}

abbrev stations : LocationRepository
stations = (1, station 1 900 true) ∷ (2, station 2 500 true) ∷ (3, station 3 0 false) ∷ []

abbrev cars : VehicleStore
cars = (4, new_vehicle 4 7 1 1 1 50) ∷ []
