-- ===== src/Billing/Tariffs.antt =====
-- backend/src/evagg/billing/tariffs.py, tariff_calculator.py and tariff_validation.py: tariffs and what
-- a session costs by them. Quantities are floating-point numbers, whose operations are a parameter.
pub mod Costs
mod Examples
use evaggregator.Base.{
  Bool, Exec, List, Option, Result, [], any_by, err, false, if◌then◌else◌, nat_eq, none, ok, some,
  true, ℕ, ◌∷◌,
}
use evaggregator.Base.Dict.{Dict, insert, lookup, lookup_or, values}
use evaggregator.Base.Int.{leb_ℤ, pos, ℤ, ◌+ℤ◌}

pub data ComponentType : Type 0 where
  energy time flat idle : ComponentType
  other_type : ℕ → ComponentType

pub record TariffComponent : Type 0 where
  pub type : ComponentType
  pub price_minor_units : ℤ
  pub step_size : ℤ
  pub applies_after_minutes : Option ℤ

pub record Tariff : Type 0 where
  pub id : ℕ
  pub tenant_id : ℕ
  pub name : ℕ
  pub currency : ℕ
  pub components : List TariffComponent

pub data TariffError : Type 0 where
  no_energy_or_time bad_step_size unknown_component tariff_not_found : TariffError
  -- the OverflowError or the ValueError of a number that is too large or not finite
  not_finite : TariffError

-- What the code does with a `float`: the constant 0.0, subtracting, dividing by and multiplying with an
-- `int`, a comparison, and `round`. `none` is an exception: of an `int` that is too large for a float, and
-- of `round` on what is not finite.
pub record Floats (F : Type 0) : Type 0 where
  pub nought : F
  pub minus : F → ℤ → Option F
  pub over : F → ℤ → Option F
  pub times : F → ℤ → Option F
  pub gt : F → F → Bool
  pub rounded : F → Option ℤ

abbrev pub or_zero : Option ℤ → ℤ
or_zero none = pos 0
or_zero (some n) = n

-- What a session has used: minutes, kWh and idle minutes.
pub record Consumption (F : Type 0) : Type 0 where
  pub duration_minutes : F
  pub kwh : F
  pub idle_minutes : F

-- What follows a value, if there is no exception.
abbrev pub after : {A B : Type 0} → Option A → (A → Option B) → Option B
after none f = none
after (some x) f = f x

abbrev pub finite : {A : Type 0} → Option A → Result TariffError A
finite none = err not_finite
finite (some x) = ok x

module _ {F : Type 0} (ops : Floats F) where
  -- `round(quantity / step * price)`
  abbrev pub rounded_cost : F → ℤ → ℤ → Option ℤ
  rounded_cost quantity step price =
      after (ops.over quantity step) (λ q. after (ops.times q price) (λ x. ops.rounded x))

  pub proportional_cost : F → ℤ → ℤ → Result TariffError ℤ
  proportional_cost quantity step price =
      if leb_ℤ step (pos 0) then err bad_step_size else finite (rounded_cost quantity step price)

  -- `max(0.0, idle_minutes - grace_minutes)`
  pub billable_idle : F → Option ℤ → Option F
  billable_idle minutes grace =
      after (ops.minus minutes (or_zero grace))
        (λ rest. some (if ops.gt rest ops.nought then rest else ops.nought))

  abbrev pub idle_cost : Option F → TariffComponent → Result TariffError ℤ
  idle_cost none c = err not_finite
  idle_cost (some quantity) c = proportional_cost quantity c.step_size c.price_minor_units

  pub component_cost : Consumption F → TariffComponent → Result TariffError ℤ
  component_cost u c = elim c.type [
    | energy ↦ proportional_cost u.kwh c.step_size c.price_minor_units
    | time ↦ proportional_cost u.duration_minutes c.step_size c.price_minor_units
    | flat ↦ ok c.price_minor_units
    | idle ↦ idle_cost (billable_idle u.idle_minutes c.applies_after_minutes) c
    | other_type t ↦ err unknown_component
  ]

  -- The loop with its running total, and the exception that ends it.
  pub cost_from : ℤ → List TariffComponent → Consumption F → Result TariffError ℤ
  cost_from total [] u = ok total
  cost_from total (c ∷ cs) u = elim (component_cost u c) [
    | err e ↦ err e
    | ok cost ↦ cost_from (total +ℤ cost) cs u
  ]

  pub calculate_session_cost : List TariffComponent → Consumption F → Result TariffError ℤ
  calculate_session_cost cs u = cost_from (pos 0) cs u

abbrev pub is_energy_or_time : TariffComponent → Bool
is_energy_or_time c = elim c.type [
  | energy ↦ true
  | time ↦ true
  | flat ↦ false
  | idle ↦ false
  | other_type t ↦ false
]

abbrev pub check_steps : List TariffComponent → Result TariffError (Unit {0})
check_steps [] = ok tt
check_steps (c ∷ cs) =
    let rest = check_steps cs in if leb_ℤ c.step_size (pos 0) then err bad_step_size else rest

unfoldable pub validate_tariff_components : List TariffComponent → Result TariffError (Unit {0})
validate_tariff_components cs =
    if any_by is_energy_or_time cs then check_steps cs else err no_energy_or_time

-- The tariffs by their id, and the currencies of the tenants.
pub record TariffService : Type 0 where
  pub tariffs : Dict ℕ Tariff
  pub currencies : Dict ℕ ℕ
  pub default_currency : ℕ

pub set_currency : ℕ → ℕ → TariffService → TariffService
set_currency tenant currency s = record s { currencies = insert tenant currency s.currencies }

unfoldable pub get_currency : ℕ → TariffService → ℕ
get_currency tenant s = lookup_or tenant s.default_currency s.currencies

abbrev pub put_tariff : Tariff → TariffService → TariffService
put_tariff t s = record s { tariffs = insert t.id t s.tariffs }

abbrev pub new_tariff : ℕ → ℕ → ℕ → List TariffComponent → TariffService → Tariff
new_tariff id tenant name cs s = record {
  id = id;
  tenant_id = tenant;
  name = name;
  currency = get_currency tenant s;
  components = cs;
}

-- The new tariff's id is the first argument.
unfoldable pub create_tariff :
    ℕ → ℕ → ℕ → List TariffComponent → Exec TariffError TariffService Tariff
create_tariff id tenant name cs s = elim (validate_tariff_components cs) [
  | err e ↦ (err e, s)
  | ok _ ↦ (ok (new_tariff id tenant name cs s), put_tariff (new_tariff id tenant name cs s) s)
]

abbrev pub updated : ℕ → ℕ → List TariffComponent → Tariff → Tariff
updated id name cs t = record t { id = id; name = name; components = cs }

unfoldable pub update_tariff : ℕ → ℕ → List TariffComponent → Exec TariffError TariffService Tariff
update_tariff id name cs s = elim (validate_tariff_components cs) [
  | err e ↦ (err e, s)
  | ok _ ↦ elim (lookup id s.tariffs) [
    | none ↦ (err tariff_not_found, s)
    | some t ↦ (ok (updated id name cs t), put_tariff (updated id name cs t) s)
  ]
]

abbrev pub get_tariff : ℕ → TariffService → Option Tariff
get_tariff id s = lookup id s.tariffs

pub list_all_tariffs : TariffService → List Tariff
list_all_tariffs s = values s.tariffs

module _ {F : Type 0} (ops : Floats F) where
  pub preview : ℕ → Consumption F → TariffService → Result TariffError ℤ
  preview id u s = elim (get_tariff id s) [
    | none ↦ err tariff_not_found
    | some t ↦ calculate_session_cost ops t.components u
  ]
