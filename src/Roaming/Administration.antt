-- ===== src/Roaming/Administration.antt =====
-- backend/src/evagg/ocpi/partner_admin.py and admin_router.py: the price lists of the partners, the results
-- of the reconciliation, and the operators' routes. A number type with a division and a comparison is a
-- parameter for the floating-point totals. Fresh ids and tokens are arguments.
pub mod PriceLists
use evaggregator.Base.{
  Bool, List, Option, [], false, filter_by, if◌then◌else◌, leb, ltb, map, nat_eq, none, some, true,
  ℕ, ◌&&◌, ◌++◌, ◌==◌, ◌||◌, ◌∷◌,
}
use evaggregator.Base.Dict.{Dict, lookup}

pub record PartnerPriceList : Type 0 where
  pub partner_id : ℕ
  pub connector_type : ℕ
  pub tariff_id : ℕ
  pub effective_from : ℕ

abbrev pub PriceListStore : Type 0
PriceListStore = List PartnerPriceList

unfoldable pub attach : PartnerPriceList → PriceListStore → PriceListStore
attach p s = s ++ p ∷ []

abbrev pub is_candidate : ℕ → ℕ → ℕ → PartnerPriceList → Bool
is_candidate partner connector_type at p =
    (p.partner_id == partner) && ((p.connector_type == connector_type) && leb p.effective_from at)

-- `max(candidates, key=...)`: the first of those with the highest key.
abbrev pub latest_after : PartnerPriceList → List PartnerPriceList → PartnerPriceList
latest_after best [] = best
latest_after best (p ∷ ps) =
    if ltb best.effective_from p.effective_from then latest_after p ps else latest_after best ps

abbrev pub latest_of : List PartnerPriceList → Option PartnerPriceList
latest_of [] = none
latest_of (p ∷ ps) = some (latest_after p ps)

unfoldable pub get_active : ℕ → ℕ → ℕ → PriceListStore → Option PartnerPriceList
get_active partner connector_type at s =
    latest_of (filter_by (is_candidate partner connector_type at) s)

pub data ReconciliationStatus : Type 0 where
  matched mismatched pending : ReconciliationStatus

-- `F` are the numbers: zero, one, the relative difference |a - b| / b, and the test for more.
pub record Totals (F : Type 0) : Type 0 where
  pub nought : F
  pub unit : F
  pub is_nought : F → Bool
  pub relative_difference : F → F → F
  pub more : F → F → Bool

pub record ReconciliationEntry (F : Type 0) : Type 0 where
  pub local_cdr_id : Option ℕ
  pub partner_cdr_uid : ℕ
  pub status : ReconciliationStatus
  pub delta_fraction : Option F

pub record PartnerReport (F : Type 0) : Type 0 where
  pub partner_cdr_uid : ℕ
  pub local_cdr_id : Option ℕ
  pub partner_total : F

module _ {F : Type 0} (n : Totals F) (threshold : F) where
  abbrev pub delta_of : F → F → F
  delta_of local_total partner_total =
      if n.is_nought local_total
      then (if n.is_nought partner_total then n.nought else n.unit)
      else n.relative_difference partner_total local_total

  abbrev pub compared : PartnerReport F → F → ReconciliationEntry F
  compared r delta = record {
    local_cdr_id = r.local_cdr_id;
    partner_cdr_uid = r.partner_cdr_uid;
    status = if n.more delta threshold then mismatched else matched;
    delta_fraction = some delta;
  }

  abbrev pub left_pending : PartnerReport F → ReconciliationEntry F
  left_pending r = record {
    local_cdr_id = r.local_cdr_id;
    partner_cdr_uid = r.partner_cdr_uid;
    status = pending;
    delta_fraction = none;
  }

  abbrev pub local_total_of : Option ℕ → Dict ℕ F → Option F
  local_total_of none totals = none
  local_total_of (some id) totals = lookup id totals

  abbrev pub reconciled : PartnerReport F → Option F → ReconciliationEntry F
  reconciled r none = left_pending r
  reconciled r (some total) = compared r (delta_of total r.partner_total)

  unfoldable pub reconcile_cdr_batch :
      Dict ℕ F → List (PartnerReport F) → List (ReconciliationEntry F)
  reconcile_cdr_batch totals rs = map (λ r. reconciled r (local_total_of r.local_cdr_id totals)) rs

abbrev pub has_status : {F : Type 0} → ReconciliationStatus → ReconciliationEntry F → Bool
has_status matched e = elim e.status [ matched ↦ true | mismatched ↦ false | pending ↦ false ]
has_status mismatched e = elim e.status [ matched ↦ false | mismatched ↦ true | pending ↦ false ]
has_status pending e = elim e.status [ matched ↦ false | mismatched ↦ false | pending ↦ true ]

unfoldable pub filter_reconciliation_entries :
    {F : Type 0}
    → Option ReconciliationStatus
    → List (ReconciliationEntry F)
    → List (ReconciliationEntry F)
filter_reconciliation_entries none es = es
filter_reconciliation_entries (some status) es = filter_by (has_status status) es

abbrev pub ResultStore : Type 0 → Type 0
ResultStore F = List (ℕ × List (ReconciliationEntry F))

unfoldable pub save_batch :
    {F : Type 0} → List (ReconciliationEntry F) → ℕ → ResultStore F → ResultStore F
save_batch es run_at s = s ++ (run_at, es) ∷ []

abbrev pub starts_before : Option ℕ → ℕ → Bool
starts_before none run_at = false
starts_before (some bound) run_at = ltb run_at bound

abbrev pub ends_after : Option ℕ → ℕ → Bool
ends_after none run_at = false
ends_after (some bound) run_at = ltb bound run_at

unfoldable pub query_results :
    {F : Type 0} → Option ℕ → Option ℕ → ResultStore F → List (ReconciliationEntry F)
query_results from to [] = []
query_results from to ((run_at, es) ∷ runs) =
    let rest = query_results from to runs in
    if starts_before from run_at || ends_after to run_at then rest else es ++ rest
