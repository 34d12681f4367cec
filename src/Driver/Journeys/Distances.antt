-- ===== src/Driver/Journeys/Distances.antt =====
-- The candidates with their distances.
use evaggregator.Driver.Journeys.{Maths, Point, distance_to, with_distances}
use evaggregator.Driver.Journeys.Nearest.{Member}
use evaggregator.Roaming.Domain.{OcpiLocation}
use evaggregator.Base.{
  All, List, Option-cases, [], ap, arith, inl, inr, refl, some, subst, sym, ◌∷◌, ◌≡◌,
}

module _ {F : Type 0} (ops : Maths F) (p : Point F) where
  -- The step of the loop, with the distance and the rest in hand.
  with_distances-inv :
      (l : OcpiLocation) (ls : List OcpiLocation) (ds : List (F × OcpiLocation))
      → with_distances ops p (l ∷ ls) ≡ some ds
      → (d : F) × (rest : List (F × OcpiLocation)) × (distance_to ops p l ≡ some d)
        × (with_distances ops p ls ≡ some rest)
        × (ds ≡ (d, l) ∷ rest)
  unfolding with_distances
  with_distances-inv l ls ds e = elim (Option-cases (distance_to ops p l)) [
    | inl f ↦ ground (arith, e, f)
    | inr (d, f) ↦ elim (Option-cases (with_distances ops p ls)) [
      | inl g ↦ ground (arith, e, f, g)
      | inr (rest, g) ↦ (d, rest, f, g, ground (arith, e, f, g))
    ]
  ]

  with_distances-nil : (ds : List (F × OcpiLocation)) → with_distances ops p [] ≡ some ds → ds ≡ []
  unfolding with_distances
  with_distances-nil ds e = ground (arith, e)

  pub with_distances-empty : (ls : List OcpiLocation) → with_distances ops p ls ≡ some [] → ls ≡ []
  with_distances-empty [] e = refl
  with_distances-empty (k ∷ ls) e =
      let (x, rest, f, g, same) = with_distances-inv k ls [] e in ground (arith, same)

  pub with_distances-Member :
      (ls : List OcpiLocation) (ds : List (F × OcpiLocation)) (d : F) (l : OcpiLocation)
      → with_distances ops p ls ≡ some ds
      → Member (d, l) ds
      → Member l ls × (distance_to ops p l ≡ some d)
  with_distances-Member [] ds d l e m =
      absurd (subst (λ xs. Member (d, l) xs) (with_distances-nil ds e) m)
  with_distances-Member (k ∷ ls) ds d l e m =
      let (x, rest, f, g, same) = with_distances-inv k ls ds e in
      elim (subst (λ xs. Member (d, l) xs) same m) [
        | inl h ↦ (inl (ap (λ y. y.1) h), subst (λ y. distance_to ops p y.1 ≡ some y.0) (sym h) f)
        | inr h ↦ let r = with_distances-Member ls rest d l g h in (inr r.0, r.1)
      ]

  -- What holds of each distance holds of each candidate's distance, and the other way round.
  pub All-with_distances :
      (P : F → Type 0) (ls : List OcpiLocation) (ds : List (F × OcpiLocation))
      → with_distances ops p ls ≡ some ds
      → All (λ y. P y.0) ds
      → All (λ k. (x : F) × (distance_to ops p k ≡ some x) × P x) ls
  All-with_distances P [] ds e h = tt
  All-with_distances P (k ∷ ls) ds e h =
      let (x, rest, f, g, same) = with_distances-inv k ls ds e in
      let all = subst (λ xs. All (λ y. P y.0) xs) same h in
      ((x, f, all.0), All-with_distances P ls rest g all.1)

  pub with_distances-All :
      (P : F → Type 0) (ls : List OcpiLocation) (ds : List (F × OcpiLocation))
      → with_distances ops p ls ≡ some ds
      → All (λ k. (x : F) → distance_to ops p k ≡ some x → P x) ls
      → All (λ y. P y.0) ds
  with_distances-All P [] ds e h =
      subst (λ xs. All (λ y. P y.0) xs) (sym (with_distances-nil ds e)) tt
  with_distances-All P (k ∷ ls) ds e h =
      let (x, rest, f, g, same) = with_distances-inv k ls ds e in
      subst (λ xs. All (λ y. P y.0) xs) (sym same) (h.0 x f, with_distances-All P ls rest g h.1)
