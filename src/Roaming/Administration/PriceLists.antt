-- ===== src/Roaming/Administration/PriceLists.antt =====
-- Which price list is in force.
use evaggregator.Roaming.Administration.{
  PartnerPriceList, PriceListStore, get_active, is_candidate, latest_after, latest_of,
}
use evaggregator.Base.{
  All, Bool, Bool-cases, List, [], arith, filter_by, inl, inr, ltb, ltb→lt, refl, some, subst, sym,
  true, ℕ, ◌∷◌, ◌≡◌, ◌≤◌,
}

abbrev AtMost : PartnerPriceList → List PartnerPriceList → PartnerPriceList → Type 0
AtMost best ps z =
    (best.effective_from ≤ z.effective_from) × All (λ y. y.effective_from ≤ z.effective_from) ps

latest_after-le :
    (best : PartnerPriceList) (ps : List PartnerPriceList) → AtMost best ps (latest_after best ps)
latest_after-le best [] = (omega arith, tt)
latest_after-le best (p ∷ ps) = elim (Bool-cases (ltb best.effective_from p.effective_from)) [
  | inl e ↦
      let (a, b) = latest_after-le p ps in
      let same : latest_after best (p ∷ ps) ≡ latest_after p ps = rw (e) refl in
      subst (AtMost best (p ∷ ps)) (sym same)
        (ground (arith, a, ltb→lt best.effective_from p.effective_from e), (a, b))
  | inr e ↦
      let (a, b) = latest_after-le best ps in
      let same : latest_after best (p ∷ ps) ≡ latest_after best ps = rw (e) refl in
      subst (AtMost best (p ∷ ps)) (sym same) (a, (ground (arith, a, e), b))
]

latest_after-All :
    (P : PartnerPriceList → Type 0) (best : PartnerPriceList) (ps : List PartnerPriceList)
    → P best
    → All P ps
    → P (latest_after best ps)
latest_after-All P best [] h k = h
latest_after-All P best (p ∷ ps) h k =
    elim (Bool-cases (ltb best.effective_from p.effective_from)) [
      | inl e ↦ rw (e) (latest_after-All P p ps k.0 k.1)
      | inr e ↦ rw (e) (latest_after-All P best ps h k.1)
    ]

filtered-All :
    (test : PartnerPriceList → Bool) (s : List PartnerPriceList)
    → All (λ y. test y ≡ true) (filter_by test s)
filtered-All test [] = tt
filtered-All test (y ∷ s) = elim (Bool-cases (test y)) [
  | inl e ↦ rw (e) (e, filtered-All test s)
  | inr e ↦ rw (e) (filtered-All test s)
]

-- What holds of all candidates holds of each entry that is a candidate.
unfiltered-All :
    (test : PartnerPriceList → Bool) (P : PartnerPriceList → Type 0) (s : List PartnerPriceList)
    → All P (filter_by test s)
    → All (λ y. test y ≡ true → P y) s
unfiltered-All test P [] h = tt
unfiltered-All test P (y ∷ s) h = elim (Bool-cases (test y)) [
  | inl e ↦
      let same : filter_by test (y ∷ s) ≡ y ∷ filter_by test s = rw (e) refl in
      let k = subst (All P) same h in (λ t. k.0, unfiltered-All test P s k.1)
  | inr e ↦
      let same : filter_by test (y ∷ s) ≡ filter_by test s = rw (e) refl in
      (λ t. ground (arith, e, t), unfiltered-All test P s (subst (All P) same h))
]

latest_of-All :
    (test : PartnerPriceList → Bool) (ps : List PartnerPriceList) {x : PartnerPriceList}
    → All (λ y. test y ≡ true) ps
    → latest_of ps ≡ some x
    → (test x ≡ true) × All (λ y. y.effective_from ≤ x.effective_from) ps
latest_of-All test [] h e = ground (arith, e)
latest_of-All test (p ∷ ps) {x = x} h e =
    let same : latest_after p ps ≡ x = ground (arith, e) in
    let (a, b) = latest_after-le p ps in
    subst (λ z. (test z ≡ true) × All (λ y. y.effective_from ≤ z.effective_from) (p ∷ ps)) same
      (latest_after-All (λ y. test y ≡ true) p ps h.0 h.1, (a, b))

-- The price list in force is attached to the partner and the connector type, is effective by then, and no
-- other one that is has a later start.
pub active_price_list_latest :
    (partner connector_type at : ℕ) (s : PriceListStore) {x : PartnerPriceList}
    → get_active partner connector_type at s ≡ some x
    → (is_candidate partner connector_type at x ≡ true)
      × All
          (λ y.
            is_candidate partner connector_type at y ≡ true → y.effective_from ≤ x.effective_from)
          s
unfolding get_active
active_price_list_latest partner connector_type at s {x = x} h =
    let test = is_candidate partner connector_type at in
    let (a, b) = latest_of-All test (filter_by test s) (filtered-All test s) h in
    (a, unfiltered-All test (λ y. y.effective_from ≤ x.effective_from) s b)
