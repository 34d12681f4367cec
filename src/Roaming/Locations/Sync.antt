-- ===== src/Roaming/Locations/Sync.antt =====
-- What a charger's status changes.
use evaggregator.Roaming.Locations.{
  LocationSync, get_location, get_location_id_for_charger, handle_status_notification, push_all,
  upsert, with_status,
}
use evaggregator.Roaming.Domain.{OcpiLocation}
use evaggregator.Base.{
  List, [], ap, if◌then◌else◌, nat_eq, none, refl, some, ℕ, ◌++◌, ◌==◌, ◌∷◌, ◌≡◌,
}
use evaggregator.Base.Dict.{lookup-insert}
use mathlib.Core.List.{append-nil, append_assoc}

abbrev pub pushes_of : List ℕ → OcpiLocation → List (ℕ × OcpiLocation)
pushes_of [] l = []
pushes_of (p ∷ ps) l = (p, l) ∷ pushes_of ps l

push_all-effect :
    (ps : List ℕ) (l : OcpiLocation) (s : LocationSync)
    → push_all ps l s ≡ record s { location_pushes = s.location_pushes ++ pushes_of ps l }
push_all-effect [] l s = rw (append-nil s.location_pushes) refl
push_all-effect (p ∷ ps) l s =
    rw (push_all-effect ps l (record s { location_pushes = s.location_pushes ++ (p, l) ∷ [] })) (
      ap (λ x. record s { location_pushes = x })
        (append_assoc s.location_pushes ((p, l) ∷ []) (pushes_of ps l)))

-- A status of a charger whose location is known: the location gets the status and the time, all other
-- locations stay as they are, and each connected partner is sent the updated location once, in order.
-- A status of any other charger changes nothing and sends nothing.
pub status_sync :
    (charger status now : ℕ) (partners : List ℕ) (s : LocationSync)
    → ((id : ℕ) (l : OcpiLocation)
        → get_location_id_for_charger charger s.mapping ≡ some id
        → get_location id s.locations ≡ some l
        → ((handle_status_notification charger status now partners s).0
            ≡ some (with_status status now l))
          × ((j : ℕ)
              → get_location j
                  (handle_status_notification charger status now partners s).1.locations
                ≡ (if l.id == j
                    then some (with_status status now l)
                    else get_location j s.locations))
          × ((handle_status_notification charger status now partners s).1.location_pushes
              ≡ s.location_pushes ++ pushes_of partners (with_status status now l)))
      × ((get_location_id_for_charger charger s.mapping ≡ none
            → handle_status_notification charger status now partners s ≡ (none, s))
          × ((id : ℕ)
              → get_location_id_for_charger charger s.mapping ≡ some id
              → get_location id s.locations ≡ none
              → handle_status_notification charger status now partners s ≡ (none, s)))
unfolding handle_status_notification
status_sync charger status now partners s = (
  λ id l mapped known.
      let u = with_status status now l in
      let e = push_all-effect partners u (record s { locations = upsert u s.locations }) in
      (
        rw (mapped, known, handle_status_notification) refl,
        λ j. rw (mapped, known, handle_status_notification, e) (lookup-insert l.id j u s.locations),
        rw (mapped, known, handle_status_notification, e) refl,
      ),
  (
    λ unmapped. rw (unmapped, handle_status_notification) refl,
    λ id mapped unknown. rw (mapped, unknown, handle_status_notification) refl,
  ),
)
