-- ===== src/Billing/Tariffs/Costs.antt =====
-- What a tariff that has been accepted costs.
use evaggregator.Billing.Tariffs.{
  Consumption, Floats, Tariff, TariffComponent, TariffError, TariffService, after, billable_idle,
  calculate_session_cost, check_steps, component_cost, cost_from, create_tariff, energy, finite,
  flat, idle, idle_cost, new_tariff, or_zero, other_type, preview, proportional_cost, rounded_cost,
  time, validate_tariff_components,
}
use evaggregator.Base.{
  Bool, Bool-cases, List, Option, Option-cases, Result, Result-cases, [], all_by, ap, arith, false,
  filter_by, inl, inr, map, nat_eq, none, not, ok, refl, some, sym, true, ℕ, ◌||◌, ◌∙◌, ◌∷◌, ◌≡◌,
}
use evaggregator.Base.Int.{+ℤ-zero, +ℤ_assoc, leb_ℤ, pos, zero-+ℤ, ℤ, ◌+ℤ◌}
use evaggregator.Base.Dict.{lookup-insert_self}

-- The type of the component is one of the four.
abbrev pub is_known : TariffComponent → Bool
is_known c = elim c.type [
  | energy ↦ true
  | time ↦ true
  | flat ↦ true
  | idle ↦ true
  | other_type t ↦ false
]

abbrev pub not_idle : TariffComponent → Bool
not_idle c = elim c.type [
  | energy ↦ true
  | time ↦ true
  | flat ↦ true
  | idle ↦ false
  | other_type t ↦ true
]

-- What is assumed of floating-point numbers: nothing used, in whatever steps, costs nothing.
pub record IsFloats {F : Type 0} (ops : Floats F) : Type 0 where
  pub nothing_costs :
      (step price : ℤ)
      → leb_ℤ step (pos 0) ≡ false
      → rounded_cost ops ops.nought step price ≡ some (pos 0)

module _ {F : Type 0} (ops : Floats F) where
  -- The rounded cost of one component, if no float overflows.
  abbrev pub cost_of : Consumption F → TariffComponent → Option ℤ
  cost_of u c = elim c.type [
    | energy ↦ rounded_cost ops u.kwh c.step_size c.price_minor_units
    | time ↦ rounded_cost ops u.duration_minutes c.step_size c.price_minor_units
    | flat ↦ some c.price_minor_units
    | idle ↦
        after (billable_idle ops u.idle_minutes c.applies_after_minutes)
          (λ quantity. rounded_cost ops quantity c.step_size c.price_minor_units)
    | other_type t ↦ none
  ]

  -- The sum of the costs, if there are all of them.
  abbrev pub sum_of : List (Option ℤ) → Option ℤ
  sum_of [] = some (pos 0)
  sum_of (x ∷ xs) = after x (λ a. after (sum_of xs) (λ b. some (a +ℤ b)))

  idle-ok :
      (o : Option F) (c : TariffComponent)
      → leb_ℤ c.step_size (pos 0) ≡ false
      → idle_cost ops o c
        ≡ finite (after o (λ q. rounded_cost ops q c.step_size c.price_minor_units))
  unfolding proportional_cost
  idle-ok none c step = refl
  idle-ok (some q) c step = rw (step, proportional_cost) refl

  component-ok :
      (u : Consumption F) (c : TariffComponent)
      → leb_ℤ c.step_size (pos 0) ≡ false
      → is_known c ≡ true
      → component_cost ops u c ≡ finite (cost_of u c)
  unfolding component_cost proportional_cost
  component-ok u c step known = ground (
    arith,
    step,
    known,
    idle-ok (billable_idle ops u.idle_minutes c.applies_after_minutes) c step,
  )

  -- The rest of the loop, from a running total.
  onwards : ℤ → Option ℤ → Result TariffError ℤ
  onwards total rest = finite (after rest (λ b. some (total +ℤ b)))

  onwards-step :
      (total x : ℤ) (rest : Option ℤ)
      → onwards (total +ℤ x) rest ≡ onwards total (after rest (λ b. some (x +ℤ b)))
  unfolding onwards
  onwards-step total x none = refl
  onwards-step total x (some y) = ap (λ z. ok z) (+ℤ_assoc total x y)

  cost_from-ok :
      (total : ℤ) (cs : List TariffComponent) (u : Consumption F)
      → check_steps cs ≡ ok tt
      → all_by is_known cs ≡ true
      → cost_from ops total cs u ≡ onwards total (sum_of (map (cost_of u) cs))
  unfolding cost_from onwards
  cost_from-ok total [] u steps known = ap (λ x. ok x) (sym (+ℤ-zero total))
  cost_from-ok total (c ∷ cs) u steps known = elim (Bool-cases (leb_ℤ c.step_size (pos 0))) [
    | inl y ↦ ground (arith, steps, y)
    | inr n ↦
        let parts : (check_steps cs ≡ ok tt) × (is_known c ≡ true) × (all_by is_known cs ≡ true) =
          ground (arith, steps, n, known) in
        let one = component-ok u c n parts.1 in
        elim (Option-cases (cost_of u c)) [
          | inl e ↦ rw (one, cost_from, e) refl
          | inr (x, e) ↦
              rw (one, cost_from, e)
                (cost_from-ok (total +ℤ x) cs u parts.0 parts.2
                  ∙ onwards-step total x (sum_of (map (cost_of u) cs)))
        ]
  ]

  from_zero : (o : Option ℤ) → onwards (pos 0) o ≡ finite o
  unfolding onwards
  from_zero none = refl
  from_zero (some x) = ap (λ z. ok z) (zero-+ℤ x)

  validated_steps :
      (cs : List TariffComponent) → validate_tariff_components cs ≡ ok tt → check_steps cs ≡ ok tt
  unfolding validate_tariff_components
  validated_steps cs h = ground (arith, h)

  -- A tariff of known component types that the service accepts can be previewed at once, for any
  -- consumption: the preview gives the sum of the rounded costs of the components, and raises only if one
  -- of these costs cannot be computed, for an amount that is too large for a float or not finite.
  pub accepted-preview :
      (id tenant name : ℕ) (cs : List TariffComponent) (u : Consumption F) (s : TariffService)
      {t : Tariff}
      → (create_tariff id tenant name cs s).0 ≡ ok t
      → all_by is_known cs ≡ true
      → preview ops id u (create_tariff id tenant name cs s).1
        ≡ finite (sum_of (map (cost_of u) cs))
  unfolding create_tariff preview calculate_session_cost
  accepted-preview id tenant name cs u s made known =
      elim (Result-cases (validate_tariff_components cs)) [
        | inl (e, bad) ↦ ground (arith, made, bad)
        | inr (x, good) ↦
            rw
              (
                good,
                create_tariff,
                preview,
                lookup-insert_self id (new_tariff id tenant name cs s) s.tariffs,
              )
              (cost_from-ok (pos 0) cs u (validated_steps cs good) known
                ∙ from_zero (sum_of (map (cost_of u) cs)))
      ]

  abbrev pub no_idle_left : Option F → Bool
  no_idle_left none = false
  no_idle_left (some rest) = not (ops.gt rest ops.nought)

  idle-free :
      (law : IsFloats ops) (u : Consumption F) (c : TariffComponent)
      → leb_ℤ c.step_size (pos 0) ≡ false
      → no_idle_left (ops.minus u.idle_minutes (or_zero c.applies_after_minutes)) ≡ true
      → not_idle c ≡ false
      → component_cost ops u c ≡ ok (pos 0)
  unfolding component_cost proportional_cost billable_idle
  idle-free law u c step within idles =
      ground (arith, step, within, idles, law.nothing_costs c.step_size c.price_minor_units)

  -- Within the grace of every component that charges for idling.
  abbrev pub in_grace : Consumption F → TariffComponent → Bool
  in_grace u c =
      not_idle c || no_idle_left (ops.minus u.idle_minutes (or_zero c.applies_after_minutes))

  grace_from :
      (law : IsFloats ops) (total : ℤ) (cs : List TariffComponent) (u : Consumption F)
      → check_steps cs ≡ ok tt
      → all_by (in_grace u) cs ≡ true
      → cost_from ops total cs u ≡ cost_from ops total (filter_by not_idle cs) u
  unfolding cost_from
  grace_from law total [] u steps within = refl
  grace_from law total (c ∷ cs) u steps within = elim (Bool-cases (leb_ℤ c.step_size (pos 0))) [
    | inl y ↦ ground (arith, steps, y)
    | inr n ↦
        let rest : (check_steps cs ≡ ok tt)
            × (in_grace u c ≡ true)
            × (all_by (in_grace u) cs ≡ true) =
          ground (arith, steps, n, within) in
        elim (Bool-cases (not_idle c)) [
          | inl y ↦ elim (Result-cases (component_cost ops u c)) [
            | inl (e, bad) ↦ rw (y, cost_from, bad) refl
            | inr (x, good) ↦
                rw (y, cost_from, good) (grace_from law (total +ℤ x) cs u rest.0 rest.2)
          ]
          | inr i ↦
              let free = idle-free law u c n (ground (arith, i, rest.1)) i in
              rw (i, free, cost_from, +ℤ-zero) (grace_from law total cs u rest.0 rest.2)
        ]
  ]

  -- A session whose idling is within the grace of each component costs what it would cost with no idle
  -- components in the tariff, provided that the tariff is valid.
  pub grace_is_free :
      (law : IsFloats ops) (cs : List TariffComponent) (u : Consumption F)
      → validate_tariff_components cs ≡ ok tt
      → all_by (in_grace u) cs ≡ true
      → calculate_session_cost ops cs u ≡ calculate_session_cost ops (filter_by not_idle cs) u
  unfolding calculate_session_cost
  grace_is_free law cs u valid within =
      grace_from law (pos 0) cs u (validated_steps cs valid) within
