-- ===== src/Roaming/Locations.antt =====
-- backend/src/evagg/ocpi/locations.py and location_sync.py: the read model of the locations, and its
-- update when a charger reports its status. The push client records what it is told to send.
pub mod Sync
use evaggregator.Roaming.Domain.{OcpiLocation}
use evaggregator.Base.{List, Option, [], nat_eq, none, some, ℕ, ◌++◌, ◌∷◌}
use evaggregator.Base.Dict.{Dict, insert, lookup, values}

abbrev pub LocationRepository : Type 0
LocationRepository = Dict ℕ OcpiLocation

abbrev pub add_location : OcpiLocation → LocationRepository → LocationRepository
add_location l s = insert l.id l s

abbrev pub get_location : ℕ → LocationRepository → Option OcpiLocation
get_location id s = lookup id s

abbrev pub list_locations : LocationRepository → List OcpiLocation
list_locations s = values s

abbrev pub upsert : OcpiLocation → LocationRepository → LocationRepository
upsert l s = insert l.id l s

abbrev pub ChargerLocationMap : Type 0
ChargerLocationMap = Dict ℕ ℕ

pub set_mapping : ℕ → ℕ → ChargerLocationMap → ChargerLocationMap
set_mapping charger location m = insert charger location m

abbrev pub get_location_id_for_charger : ℕ → ChargerLocationMap → Option ℕ
get_location_id_for_charger charger m = lookup charger m

pub record LocationSync : Type 0 where
  pub mapping : ChargerLocationMap
  pub locations : LocationRepository
  pub location_pushes : List (ℕ × OcpiLocation)

abbrev pub push_all : List ℕ → OcpiLocation → LocationSync → LocationSync
push_all [] l s = s
push_all (p ∷ ps) l s =
    push_all ps l (record s { location_pushes = s.location_pushes ++ (p, l) ∷ [] })

abbrev pub with_status : ℕ → ℕ → OcpiLocation → OcpiLocation
with_status status now l = record l { evse_status = some status; last_updated = now }

abbrev pub sync_location : ℕ → ℕ → List ℕ → OcpiLocation → LocationSync → LocationSync
sync_location status now partners l s =
    push_all partners (with_status status now l)
      (record s { locations = upsert (with_status status now l) s.locations })

-- A charger of no known location is left alone.
pub handle_status_notification :
    ℕ → ℕ → ℕ → List ℕ → LocationSync → Option OcpiLocation × LocationSync
handle_status_notification charger status now partners s =
    elim (get_location_id_for_charger charger s.mapping) [
      | none ↦ (none, s)
      | some id ↦ elim (get_location id s.locations) [
        | none ↦ (none, s)
        | some l ↦ (some (with_status status now l), sync_location status now partners l s)
      ]
    ]
