-- ===== src/Driver/Journeys/Nearest.antt =====
-- What `min` with a key returns.
use evaggregator.Driver.Journeys.{min_by}
use evaggregator.Base.{
  All, Bool, Bool-cases, List, [], ap, false, if◌then◌else◌, inl, inr, refl, subst, sym, true, ◌∷◌,
  ◌≡◌, ◌⊎◌,
}

abbrev pub Member : {A : Type 0} → A → List A → Type 0
Member x [] = ⊥
Member x (y ∷ ys) = (x ≡ y) ⊎ Member x ys

-- No element of the list has a key before this one's.
abbrev pub IsLeast : {F A : Type 0} → (F → F → Bool) → F × A → List (F × A) → Type 0
IsLeast lt x ys = All (λ y. lt y.0 x.0 ≡ false) ys

-- One step of `min`, by the test's outcome.
min_by-first :
    {F A : Type 0} (lt : F → F → Bool) (x y : F × A) (ys : List (F × A)) (b : Bool)
    → lt y.0 x.0 ≡ b
    → min_by lt x (y ∷ ys) ≡ min_by lt (if b then y else x) ys
unfolding min_by
min_by-first lt x y ys b e = ap (λ c. min_by lt (if c then y else x) ys) e

skip_second :
    {A : Type 0} {m : A} (x y : A) (ys : List A) → Member m (x ∷ ys) → Member m (x ∷ (y ∷ ys))
skip_second x y ys (inl e) = inl e
skip_second x y ys (inr h) = inr (inr h)

pub min_by-Member :
    {F A : Type 0} (lt : F → F → Bool) (x : F × A) (xs : List (F × A))
    → Member (min_by lt x xs) (x ∷ xs)
unfolding min_by
min_by-Member lt x [] = inl refl
min_by-Member lt x (y ∷ ys) = elim (Bool-cases (lt y.0 x.0)) [
  | inl e ↦
      subst (λ m. Member m (x ∷ (y ∷ ys))) (sym (min_by-first lt x y ys true e))
        (inr (min_by-Member lt y ys))
  | inr n ↦
      subst (λ m. Member m (x ∷ (y ∷ ys))) (sym (min_by-first lt x y ys false n))
        (skip_second x y ys (min_by-Member lt x ys))
]

irreflexive :
    {F : Type 0} (lt : F → F → Bool)
    → ((x y : F) → lt x y ≡ true → lt y x ≡ false)
    → (x : F) → lt x x ≡ false
irreflexive lt asym x = elim (Bool-cases (lt x x)) [ inl e ↦ asym x x e | inr n ↦ n ]

module _ {F A : Type 0} (lt : F → F → Bool) (is_nan : F → Bool)
    (asym : (x y : F) → lt x y ≡ true → lt y x ≡ false)
    (trans : (x y z : F)
      → is_nan y ≡ false
      → lt x y ≡ false
      → lt y z ≡ false
      → lt x z ≡ false) where
  pub min_by-IsLeast :
      (x : F × A) (xs : List (F × A))
      → is_nan x.0 ≡ false
      → All (λ y. is_nan y.0 ≡ false) xs
      → IsLeast lt (min_by lt x xs) (x ∷ xs)
  unfolding min_by
  min_by-IsLeast x [] number numbers = (irreflexive lt asym x.0, tt)
  min_by-IsLeast x (y ∷ ys) number numbers = elim (Bool-cases (lt y.0 x.0)) [
    | inl e ↦
        subst (λ m. IsLeast lt m (x ∷ (y ∷ ys))) (sym (min_by-first lt x y ys true e))
          (let h = min_by-IsLeast y ys numbers.0 numbers.1 in
            (trans x.0 y.0 _ numbers.0 (asym y.0 x.0 e) h.0, h))
    | inr n ↦
        subst (λ m. IsLeast lt m (x ∷ (y ∷ ys))) (sym (min_by-first lt x y ys false n))
          (let h = min_by-IsLeast x ys number numbers.1 in
            (h.0, (trans y.0 x.0 _ number n h.0, h.1)))
  ]
