-- ===== src/Driver/Journeys.antt =====
-- backend/src/evagg/driver_app/route_planner.py, geo.py and route_planner_router.py: a trip with a
-- charging stop. `F` are the floats with their operations, and the routing client is a function.
pub mod Nearest
pub mod Distances
pub mod Plans
mod Examples
use evaggregator.Base.{
  Bool, List, Option, Result, [], err, false, filter_by, if◌then◌else◌, nat_eq, none, not, ok, some,
  true, ℕ, ◌==◌, ◌>>◌, ◌∷◌,
}
use evaggregator.Driver.Vehicles.{Vehicle, VehicleStore, get_vehicle}
use evaggregator.Roaming.Domain.{OcpiLocation}
use evaggregator.Roaming.Locations.{LocationRepository, list_locations}
use evaggregator.Gateway.AccessTokens.{
  Authorization, DriverIdentity, Jwt, TokenError, TokenSettings, require_driver_identity,
}

-- `none` is a ValueError: of `math` on a number out of the function's domain, and of `float` on a text that
-- is no number.
pub record Maths (F : Type 0) : Type 0 where
  pub minus : F → F → F
  pub plus : F → F → F
  pub times : F → F → F
  pub over : F → F → F
  pub lt : F → F → Bool
  pub is_nan : F → Bool
  pub radians : F → F
  pub sin : F → Option F
  pub cos : F → Option F
  pub asin : F → Option F
  pub sqrt : F → Option F
  -- `x ** 2`, which raises an OverflowError
  pub square : F → Option F
  -- the number of so many hundredths
  pub hundredths : ℕ → F
  -- `float` of a coordinate's text, and the battery capacity that a number stands for
  pub float : ℕ → Option F
  pub capacity : ℕ → F

-- What follows a value, if there is no exception.
infixl 5 ◌>>=◌
abbrev pub ◌>>=◌ : {A B : Type 0} → Option A → (A → Option B) → Option B
none >>= f = none
some x >>= f = f x

-- latitude and longitude
abbrev pub Point : Type 0 → Type 0
Point F = F × F

pub record RouteEstimate (F : Type 0) : Type 0 where
  pub distance_km : F
  pub duration_minutes : F

pub record SuggestedCharger (F : Type 0) : Type 0 where
  pub id : ℕ
  pub name : Option ℕ
  pub lat : F
  pub lng : F

pub record RoutePlan (F : Type 0) : Type 0 where
  pub distance_km : F
  pub duration_minutes : F
  pub charging_stop_needed : Bool
  pub suggested_charger : Option (SuggestedCharger F)

pub data RouteError : Type 0 where
  vehicle_not_found routing_failed : RouteError
  -- an exception of the arithmetic
  not_computed : RouteError

-- Python's `min` of values with their keys: the first of the least ones.
unfoldable pub min_by : {F A : Type 0} → (F → F → Bool) → F × A → List (F × A) → F × A
min_by lt best [] = best
min_by lt best (x ∷ xs) = min_by lt (if lt x.0 best.0 then x else best) xs

abbrev pub published : LocationRepository → List OcpiLocation
published locations = filter_by (λ l. l.publish) (list_locations locations)

module _ {F : Type 0} (ops : Maths F) where
  abbrev pub earth_radius_km : F
  earth_radius_km = ops.hundredths 637_100

  abbrev pub two : F
  two = ops.hundredths 200

  -- `sin(x / 2) ** 2`
  abbrev pub half_chord : F → Option F
  half_chord x = do half ← ops.sin (ops.over x two); ops.square half

  unfoldable pub haversine_km : Point F → Point F → Option F
  haversine_km (lat_a, lng_a) (lat_b, lng_b) = do
    a ← half_chord (ops.minus (ops.radians lat_b) (ops.radians lat_a))
    cos_a ← ops.cos (ops.radians lat_a)
    cos_b ← ops.cos (ops.radians lat_b)
    b ← half_chord (ops.minus (ops.radians lng_b) (ops.radians lng_a))
    root ← ops.sqrt (ops.plus a (ops.times (ops.times cos_a cos_b) b))
    angle ← ops.asin root
    some (ops.times (ops.times two earth_radius_km) angle)

  abbrev pub point_of : OcpiLocation → Option (Point F)
  point_of l = do
    lat ← ops.float l.coordinates.latitude
    lng ← ops.float l.coordinates.longitude
    some (lat, lng)

  abbrev pub suggestion : OcpiLocation → Option (SuggestedCharger F)
  suggestion l = do p ← point_of l; some (record { id = l.id; name = l.name; lat = p.0; lng = p.1 })

  abbrev pub distance_to : Point F → OcpiLocation → Option F
  distance_to p l = do q ← point_of l; haversine_km p q

  -- The key of every candidate is computed before any is returned.
  unfoldable pub with_distances : Point F → List OcpiLocation → Option (List (F × OcpiLocation))
  with_distances p [] = some []
  with_distances p (l ∷ ls) = do
    d ← distance_to p l
    rest ← with_distances p ls
    some ((d, l) ∷ rest)

  -- The outer `none` is an exception.
  abbrev pub nearest_of : List (F × OcpiLocation) → Option (Option (SuggestedCharger F))
  nearest_of [] = some none
  nearest_of (x ∷ xs) = do c ← suggestion (min_by ops.lt x xs).1; some (some c)

  abbrev pub nearest_published_charger :
      Point F → LocationRepository → Option (Option (SuggestedCharger F))
  nearest_published_charger p locations = do
    ds ← with_distances p (published locations)
    nearest_of ds

  -- 80 % of the capacity, at 0.18 kWh for a kilometre
  abbrev pub usable_range_km : Vehicle → F
  usable_range_km v =
      ops.over (ops.times (ops.capacity v.battery_capacity_kwh) (ops.hundredths 80))
        (ops.hundredths 18)

  abbrev pub plan_with : Bool → RouteEstimate F → Option (SuggestedCharger F) → RoutePlan F
  plan_with needs_stop e charger = record {
    distance_km = e.distance_km;
    duration_minutes = e.duration_minutes;
    charging_stop_needed = needs_stop;
    suggested_charger = charger;
  }

  abbrev pub plan_with_stop :
      RouteEstimate F → Option (Option (SuggestedCharger F)) → Result RouteError (RoutePlan F)
  plan_with_stop e none = err not_computed
  plan_with_stop e (some charger) = ok (plan_with true e charger)

  abbrev pub plan_of :
      Bool → RouteEstimate F → Point F → LocationRepository → Result RouteError (RoutePlan F)
  plan_of true e destination locations =
      plan_with_stop e (nearest_published_charger destination locations)
  plan_of false e destination locations = ok (plan_with false e none)

  module _ (get_route : Point F → Point F → Option (RouteEstimate F)) where
    abbrev pub plan_estimated :
        Vehicle
        → Option (RouteEstimate F)
        → Point F
        → LocationRepository
        → Result RouteError (RoutePlan F)
    plan_estimated v none destination locations = err routing_failed
    plan_estimated v (some e) destination locations =
        plan_of (ops.lt (usable_range_km v) e.distance_km) e destination locations

    abbrev pub plan_for :
        ℕ
        → Option Vehicle
        → Point F
        → Point F
        → LocationRepository
        → Result RouteError (RoutePlan F)
    plan_for driver none origin destination locations = err vehicle_not_found
    plan_for driver (some v) origin destination locations =
        if not (v.driver_id == driver)
        then err vehicle_not_found
        else plan_estimated v (get_route origin destination) destination locations

    unfoldable pub plan_route :
        VehicleStore
        → ℕ
        → ℕ
        → Point F
        → Point F
        → LocationRepository
        → Result RouteError (RoutePlan F)
    unfolding get_vehicle
    plan_route vehicles driver vehicle origin destination locations =
        plan_for driver (get_vehicle vehicle vehicles) origin destination locations

pub data PlanAnswer (F : Type 0) : Type 0 where
  plan_answer : RoutePlan F → PlanAnswer F
  -- 404, 502, 500 and 401
  no_vehicle bad_gateway server_error : PlanAnswer F
  unauthorized : TokenError → PlanAnswer F

abbrev pub plan_or_refusal : {F : Type 0} → Result RouteError (RoutePlan F) → PlanAnswer F
plan_or_refusal (err vehicle_not_found) = no_vehicle
plan_or_refusal (err routing_failed) = bad_gateway
plan_or_refusal (err not_computed) = server_error
plan_or_refusal (ok plan) = plan_answer plan

abbrev pub for_driver :
    {F : Type 0}
    → (ℕ → Result RouteError (RoutePlan F))
    → Result TokenError DriverIdentity
    → PlanAnswer F
for_driver plan (err e) = unauthorized e
for_driver plan (ok i) = plan_or_refusal (plan i.driver_id)

-- A request with its `Authorization` header, a vehicle and the two ends of the trip.
unfoldable pub post_route_plan :
    {F T : Type 0}
    → Maths F
    → (Point F → Point F → Option (RouteEstimate F))
    → Jwt T
    → TokenSettings
    → (ℕ → Option ℕ)
    → Authorization T
    → ℕ
    → VehicleStore
    → LocationRepository
    → ℕ
    → Point F
    → Point F
    → PlanAnswer F
post_route_plan ops get_route jwt c parse header now vehicles locations vehicle origin destination =
    for_driver
      (λ driver. plan_route ops get_route vehicles driver vehicle origin destination locations)
      (require_driver_identity jwt c parse header now)
