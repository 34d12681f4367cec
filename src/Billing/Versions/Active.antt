-- ===== src/Billing/Versions/Active.antt =====
-- Which version is active, and that later edits do not change it.
use evaggregator.Billing.Versions.{
  TariffVersionRecord, VersionStore, add_version, get_active_version, is_active, latest,
  latest_from,
}
use evaggregator.Base.{
  All, Bool, Bool-cases, List, Option, [], ap, arith, false, filter_by, filter_by-append,
  if◌then◌else◌, inl, inr, ltb, some, subst, true, ℕ, ◌<◌, ◌∙◌, ◌∷◌, ◌≡◌, ◌≤◌,
}
use mathlib.Core.List.{append-nil}
use mathlib.Core.Option.{some-injective}

-- `v` is active for the tariff at the instant, and no active version of the list starts later.
pub record IsLatestActive (tariff at : ℕ) (s : VersionStore) (v : TariffVersionRecord)
    : Type 0 where
  pub active : is_active tariff at v ≡ true
  pub last : All (λ w. is_active tariff at w ≡ true → w.effective_from ≤ v.effective_from) s

abbrev StartsBy : ℕ → TariffVersionRecord → Type 0
StartsBy t w = w.effective_from ≤ t

StartsBy-trans :
    (t u : ℕ) (vs : List TariffVersionRecord) → t ≤ u → All (StartsBy t) vs → All (StartsBy u) vs
StartsBy-trans t u [] h k = tt
StartsBy-trans t u (v ∷ vs) h k = (omega (arith, k.0), StartsBy-trans t u vs h k.1)

latest_from-latest :
    (best : TariffVersionRecord) (vs : List TariffVersionRecord)
    → (best.effective_from ≤ (latest_from best vs).effective_from)
      × All (StartsBy (latest_from best vs).effective_from) vs
unfolding latest_from
latest_from-latest best [] = (omega arith, tt)
latest_from-latest best (v ∷ vs) =
    let best' = if ltb best.effective_from v.effective_from then v else best in
    let (a, b) = latest_from-latest best' vs in (ground (arith, a), (ground (arith, a), b))

latest_from-All :
    (P : TariffVersionRecord → Type 0) (best : TariffVersionRecord) (vs : List TariffVersionRecord)
    → P best
    → All P vs
    → P (latest_from best vs)
unfolding latest_from
latest_from-All P best [] h k = h
latest_from-All P best (v ∷ vs) h k = elim (Bool-cases (ltb best.effective_from v.effective_from)) [
  | inl e ↦ rw e (latest_from-All P v vs k.0 k.1)
  | inr e ↦ rw e (latest_from-All P best vs h k.1)
]

All-filtered :
    (p : TariffVersionRecord → Bool) (t : ℕ) (s : VersionStore)
    → All (StartsBy t) (filter_by p s)
    → All (λ w. p w ≡ true → w.effective_from ≤ t) s
All-filtered p t [] h = tt
All-filtered p t (v ∷ vs) h = elim (Bool-cases (p v)) [
  | inl e ↦ let k = rw e at h in (λ _. k.0, All-filtered p t vs k.1)
  | inr e ↦ (λ y. cc, All-filtered p t vs (rw e at h))
]

filter_by-All :
    (p : TariffVersionRecord → Bool) (s : VersionStore) → All (λ w. p w ≡ true) (filter_by p s)
filter_by-All p [] = tt
filter_by-All p (v ∷ vs) = elim (Bool-cases (p v)) [
  | inl e ↦ rw e (e, filter_by-All p vs)
  | inr e ↦ rw e (filter_by-All p vs)
]

latest-greatest :
    (P : TariffVersionRecord → Type 0) (cs : List TariffVersionRecord) (v : TariffVersionRecord)
    → latest cs ≡ some v
    → All P cs
    → P v × All (StartsBy v.effective_from) cs
unfolding latest
latest-greatest P [] v h k = cc
latest-greatest P (c ∷ cs) v h k =
    subst (λ x. P x × All (StartsBy x.effective_from) (c ∷ cs)) (some-injective _ _ h)
      (latest_from-All P c cs k.0 k.1, latest_from-latest c cs)

-- The version that a session is billed by belongs to the tariff, its window holds the instant, and
-- no version of which that is true started later.
pub active_version_latest :
    (tariff at : ℕ) (s : VersionStore) (v : TariffVersionRecord)
    → get_active_version tariff at s ≡ some v
    → IsLatestActive tariff at s v
unfolding get_active_version
active_version_latest tariff at s v h =
    let (a, b) =
      latest-greatest (λ w. is_active tariff at w ≡ true) (filter_by (is_active tariff at) s) v h
        (filter_by-All (is_active tariff at) s) in
    record { active = a; last = All-filtered (is_active tariff at) v.effective_from s b }

-- A version added later that takes effect only after an instant does not change which version is
-- active at that instant, so a session that has started keeps its price.
pub later_version_no_effect :
    (tariff at new_id other number from : ℕ) (to : Option ℕ) (s : VersionStore)
    → at < from
    → get_active_version tariff at (add_version new_id other number from to s).1
      ≡ get_active_version tariff at s
unfolding get_active_version add_version
later_version_no_effect tariff at new_id other number from to s h =
    let v : TariffVersionRecord = record {
      id = new_id;
      tariff_id = other;
      version_no = number;
      effective_from = from;
      effective_to = to;
    } in
    let early : is_active tariff at v ≡ false = ground arith in
    ap latest (filter_by-append (is_active tariff at) s (v ∷ []) ∙ rw early (append-nil _))
