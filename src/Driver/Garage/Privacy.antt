-- ===== src/Driver/Garage/Privacy.antt =====
-- Nobody touches another driver's vehicles.
use evaggregator.Driver.Garage.{
  VehicleRequest, as_driver, delete_vehicle, get_vehicles, patch_plug_and_charge, post_vehicle,
  respond_garage, respond_vehicle, unauthorized,
}
use evaggregator.Driver.Vehicles.{
  Vehicle, VehicleStore, create, delete, get_vehicle, new_vehicle, set_plug_and_charge,
}
use evaggregator.Gateway.AccessTokens.{
  Authorization, DriverIdentity, Jwt, TokenError, TokenSettings, require_driver_identity,
}
use evaggregator.Base.{
  Option, Option-cases, arith, err, inl, inr, nat_beq_iff, nat_eq, none, ok, refl, some, subst, sym,
  ℕ, ◌≡◌, ◌≢◌,
}
use evaggregator.Base.Dict.{lookup, lookup-erase, lookup-insert}

-- The id of a new vehicle is no vehicle's.
abbrev pub IsFresh : VehicleRequest → VehicleStore → Type 0
IsFresh get_vehicles s = Unit
IsFresh (post_vehicle id make model connector capacity) s = lookup id s ≡ none
IsFresh (patch_plug_and_charge id enabled) s = Unit
IsFresh (delete_vehicle id) s = Unit

other_kept :
    (driver j : ℕ) (v : Vehicle) (q : VehicleRequest) (s : VehicleStore)
    → IsFresh q s
    → lookup j s ≡ some v
    → v.driver_id ≢ driver
    → lookup j (respond_vehicle driver q s).1 ≡ some v
unfolding respond_vehicle create get_vehicle set_plug_and_charge delete
other_kept driver j v get_vehicles s fresh h other = h
other_kept driver j v (post_vehicle id make model connector capacity) s fresh h other = ground (
  arith,
  h,
  fresh,
  lookup-insert id j (new_vehicle id driver make model connector capacity) s,
  nat_beq_iff id j,
)
other_kept driver j v (patch_plug_and_charge id enabled) s fresh h other =
    elim (Option-cases (lookup id s)) [
      | inl e ↦ ground (arith, e, h)
      | inr (w, e) ↦ ground (
        arith,
        e,
        h,
        lookup-insert id j (record w { plug_and_charge_enabled = enabled }) s,
        nat_beq_iff id j,
      )
    ]
other_kept driver j v (delete_vehicle id) s fresh h other =
    ground (arith, h, lookup-erase id j s, nat_beq_iff id j)

-- A request to the vehicles without a valid bearer token is refused and changes nothing. One with a token
-- leaves every vehicle of every other driver as it is, whichever id it names and whatever it asks for,
-- if the id of a new vehicle is a new one.
pub others_vehicles_kept :
    {T : Type 0} (jwt : Jwt T) (c : TokenSettings) (parse : ℕ → Option ℕ) (header : Authorization T)
    (now : ℕ) (q : VehicleRequest) (s : VehicleStore)
    → IsFresh q s
    → ((e : TokenError)
        → require_driver_identity jwt c parse header now ≡ err e
        → respond_garage jwt c parse header now q s ≡ (unauthorized e, s))
      × ((i : DriverIdentity) (j : ℕ) (v : Vehicle)
          → require_driver_identity jwt c parse header now ≡ ok i
          → lookup j s ≡ some v
          → v.driver_id ≢ i.driver_id
          → lookup j (respond_garage jwt c parse header now q s).1 ≡ some v)
unfolding respond_garage
others_vehicles_kept jwt c parse header now q s fresh = (
  λ e refused. rw (refused, respond_garage) refl,
  λ i j v known h other.
      subst (λ r. lookup j (as_driver r q s).1 ≡ some v) (sym known)
        (other_kept i.driver_id j v q s fresh h other),
)
