-- ===== src/Driver/Vehicles.antt =====
-- backend/src/evagg/driver_app/vehicles.py: the cars of the drivers. Make, model, connector and battery
-- capacity are only carried.
use evaggregator.Base.{Bool, List, Option, false, filter_by, nat_eq, none, some, ℕ, ◌==◌}
use evaggregator.Base.Dict.{Dict, erase, insert, lookup, values}

pub record Vehicle : Type 0 where
  pub id : ℕ
  pub driver_id : ℕ
  pub make : ℕ
  pub model : ℕ
  pub connector_type : ℕ
  pub battery_capacity_kwh : ℕ
  pub plug_and_charge_enabled : Bool

abbrev pub VehicleStore : Type 0
VehicleStore = Dict ℕ Vehicle

abbrev pub new_vehicle : ℕ → ℕ → ℕ → ℕ → ℕ → ℕ → Vehicle
new_vehicle id driver make model connector capacity = record {
  id = id;
  driver_id = driver;
  make = make;
  model = model;
  connector_type = connector;
  battery_capacity_kwh = capacity;
  plug_and_charge_enabled = false;
}

unfoldable pub create : ℕ → ℕ → ℕ → ℕ → ℕ → ℕ → VehicleStore → Vehicle × VehicleStore
create id driver make model connector capacity s = (
  new_vehicle id driver make model connector capacity,
  insert id (new_vehicle id driver make model connector capacity) s,
)

abbrev pub list_for_driver : ℕ → VehicleStore → List Vehicle
list_for_driver driver s = filter_by (λ v. v.driver_id == driver) (values s)

unfoldable pub get_vehicle : ℕ → VehicleStore → Option Vehicle
get_vehicle id s = lookup id s

-- raises on a vehicle that is not there
unfoldable pub set_plug_and_charge : ℕ → Bool → VehicleStore → Option (Vehicle × VehicleStore)
set_plug_and_charge id enabled s = elim (lookup id s) [
  | none ↦ none
  | some v ↦
      let updated : Vehicle = record v { plug_and_charge_enabled = enabled } in
      some (updated, insert id updated s)
]

unfoldable pub delete : ℕ → VehicleStore → VehicleStore
delete id s = erase id s
