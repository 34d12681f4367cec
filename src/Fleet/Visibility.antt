-- ===== src/Fleet/Visibility.antt =====
-- backend/src/evagg/fleet/charger_visibility.py: the team-scoped map query. Coordinates are only
-- compared, so their type and its order are parameters. A set of teams is the list of its members.
pub mod Access
mod Examples
use evaggregator.Fleet.Invites.{MembershipStore, list_team_ids_for_driver}
use evaggregator.Base.{
  Bool, List, Option, [], any_by, false, if◌then◌else◌, nat_eq, none, not, some, true, ℕ, ◌&&◌,
  ◌==◌, ◌∷◌,
}
use evaggregator.Base.Dict.{Dict, insert, lookup_or, update_default, values}

pub data Audience : Type 0 where
  everyone team_only : Audience

-- `charger.visibility == PUBLIC`
abbrev pub is_public : Audience → Bool
is_public everyone = true
is_public team_only = false

pub record BoundingBox (C : Type 0) : Type 0 where
  pub min_lat : C
  pub min_lng : C
  pub max_lat : C
  pub max_lng : C

pub record ChargerSummary (C : Type 0) : Type 0 where
  pub id : ℕ
  pub visibility : Audience
  pub latitude : C
  pub longitude : C

pub record ChargerAccessRepository (C : Type 0) : Type 0 where
  pub chargers : Dict ℕ (ChargerSummary C)
  pub team_access : Dict ℕ (List ℕ)

module _ {C : Type 0} where
  pub add_charger : ChargerSummary C → ChargerAccessRepository C → ChargerAccessRepository C
  add_charger charger r = record r { chargers = insert charger.id charger r.chargers }

  pub grant_team_access : ℕ → ℕ → ChargerAccessRepository C → ChargerAccessRepository C
  grant_team_access charger team r = record r {
    team_access = update_default charger [] (λ teams. team ∷ teams) r.team_access;
  }

  pub list_chargers : ChargerAccessRepository C → List (ChargerSummary C)
  list_chargers r = values r.chargers

  abbrev pub authorized_team_ids : ℕ → ChargerAccessRepository C → List ℕ
  authorized_team_ids charger r = lookup_or charger [] r.team_access

-- `authorized_teams & driver_team_ids` is not empty.
abbrev pub intersects : List ℕ → List ℕ → Bool
intersects teams mine = any_by (λ t. any_by (λ m. m == t) mine) teams

module _ {C : Type 0} (leq : C → C → Bool) where
  abbrev pub box_contains : BoundingBox C → C → C → Bool
  box_contains b lat lng =
      (leq b.min_lat lat && leq lat b.max_lat) && (leq b.min_lng lng && leq lng b.max_lng)

  -- `bbox is not None and not bbox.contains(...)`
  abbrev pub is_outside : Option (BoundingBox C) → ChargerSummary C → Bool
  is_outside none c = false
  is_outside (some b) c = not (box_contains b c.latitude c.longitude)

  -- the loop of `query_visible_chargers`
  pub visible_from :
      List ℕ
      → Option (BoundingBox C)
      → ChargerAccessRepository C
      → List (ChargerSummary C)
      → List (ChargerSummary C)
  visible_from mine bbox r [] = []
  visible_from mine bbox r (c ∷ cs) =
      let rest = visible_from mine bbox r cs in
      if is_outside bbox c
      then rest
      else if is_public c.visibility
      then c ∷ rest
      else if intersects (authorized_team_ids c.id r) mine
      then c ∷ rest
      else rest

  pub query_visible_chargers :
      ℕ
      → Option (BoundingBox C)
      → ChargerAccessRepository C
      → MembershipStore
      → List (ChargerSummary C)
  unfolding visible_from list_team_ids_for_driver list_chargers
  query_visible_chargers driver bbox r ms =
      visible_from (list_team_ids_for_driver driver ms) bbox r (list_chargers r)
