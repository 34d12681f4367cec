-- ===== src/Fleet/Visibility/Examples.antt =====
-- A team charger on the map of a driver of that team, and of another driver.
use evaggregator.Fleet.Invites.{MembershipStore}
use evaggregator.Fleet.Visibility.{
  BoundingBox, ChargerAccessRepository, ChargerSummary, list_chargers, query_visible_chargers,
  team_only,
}
use evaggregator.Fleet.Visibility.Access.{MaySee, Member, visible_exact}
use evaggregator.Base.{[], leb, refl, some, ℕ, ◌↔◌, ◌∷◌, ◌≡◌}

abbrev charger : ChargerSummary ℕ
charger = record { id = 5; visibility = team_only; latitude = 10; longitude = 20 }

abbrev repository : ChargerAccessRepository ℕ
repository = record { chargers = (5, charger) ∷ []; team_access = (5, 4 ∷ []) ∷ [] }

abbrev members : MembershipStore
members = record { driver_id = 1; team_id = 4; role = 0 } ∷ []

abbrev box : BoundingBox ℕ
box = record { min_lat = 0; min_lng = 0; max_lat = 50; max_lng = 50 }

visible_exact_example :
    Member charger (query_visible_chargers leb 1 (some box) repository members) ↔ (
      Member charger (list_chargers repository)
      × MaySee leb 1 (some box) charger repository members)
visible_exact_example = visible_exact leb 1 (some box) charger repository members

seen_by_member : query_visible_chargers leb 1 (some box) repository members ≡ charger ∷ []
unfolding query_visible_chargers
seen_by_member = refl

hidden_from_others : query_visible_chargers leb 2 (some box) repository members ≡ []
unfolding query_visible_chargers
hidden_from_others = refl
