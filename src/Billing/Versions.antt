-- ===== src/Billing/Versions.antt =====
-- backend/src/evagg/billing/tariff_versioning.py: the version of a tariff that a session is billed by.
pub mod Active
use evaggregator.Base.{
  Bool, List, Option, [], filter_by, if◌then◌else◌, leb, ltb, nat_eq, none, some, true, ℕ, ◌&&◌,
  ◌++◌, ◌==◌, ◌∷◌,
}

pub record TariffVersionRecord : Type 0 where
  pub id : ℕ
  pub tariff_id : ℕ
  pub version_no : ℕ
  pub effective_from : ℕ
  pub effective_to : Option ℕ

abbrev pub VersionStore : Type 0
VersionStore = List TariffVersionRecord

-- The new record's id is the first argument.
pub add_version : ℕ → ℕ → ℕ → ℕ → Option ℕ → VersionStore → TariffVersionRecord × VersionStore
add_version new_id tariff version_no effective_from effective_to s =
    let v : TariffVersionRecord = record {
      id = new_id;
      tariff_id = tariff;
      version_no = version_no;
      effective_from = effective_from;
      effective_to = effective_to;
    } in
    (v, s ++ v ∷ [])

-- `v.effective_to is None or at < v.effective_to`
abbrev pub not_ended : Option ℕ → ℕ → Bool
not_ended none at = true
not_ended (some end) at = ltb at end

abbrev pub is_active : ℕ → ℕ → TariffVersionRecord → Bool
is_active tariff at v =
    (v.tariff_id == tariff) && (leb v.effective_from at && not_ended v.effective_to at)

-- `max(candidates, key=lambda v: v.effective_from)`: the first of the greatest ones
pub latest_from : TariffVersionRecord → List TariffVersionRecord → TariffVersionRecord
latest_from best [] = best
latest_from best (v ∷ vs) =
    latest_from (if ltb best.effective_from v.effective_from then v else best) vs

pub latest : List TariffVersionRecord → Option TariffVersionRecord
unfolding latest_from
latest [] = none
latest (v ∷ vs) = some (latest_from v vs)

pub get_active_version : ℕ → ℕ → VersionStore → Option TariffVersionRecord
unfolding latest
get_active_version tariff at s = latest (filter_by (is_active tariff at) s)
