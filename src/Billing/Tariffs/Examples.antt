-- ===== src/Billing/Tariffs/Examples.antt =====
-- A tariff of 30 per kWh and 5 per idle minute after 10 free ones, on whole numbers for quantities.
use evaggregator.Base.{List, [], ap, arith, ltb, none, ok, refl, some, ℕ, ◌*◌, ◌-◌, ◌/◌, ◌∷◌, ◌≡◌}
use evaggregator.Billing.Tariffs.{
  Consumption, Floats, TariffComponent, TariffService, billable_idle, create_tariff, energy, idle,
  preview, validate_tariff_components,
}
use evaggregator.Billing.Tariffs.Costs.{IsFloats, accepted-preview}
use evaggregator.Base.Int.{pos, pos_part, ℤ, ◌+ℤ◌}

abbrev whole : ℤ → ℕ
whole n = pos_part n

abbrev whole_floats : Floats ℕ
whole_floats = record {
  nought = 0;
  minus = λ q n. some (q - whole n);
  over = λ q n. some (q / whole n);
  times = λ q n. some (q * whole n);
  gt = λ a b. ltb b a;
  rounded = λ q. some (pos q);
}

zero_times : (a b : ℕ) → 0 / a * b ≡ 0
zero_times a b = grind arith

whole_floats-IsFloats : IsFloats whole_floats
whole_floats-IsFloats = record {
  nothing_costs =
      λ step price positive. ap (λ q. some (pos q)) (zero_times (whole step) (whole price));
}

abbrev components : List TariffComponent
components =
    record {
      type = energy;
      price_minor_units = pos 30;
      step_size = pos 1;
      applies_after_minutes = none;
    }
    ∷ record {
      type = idle;
      price_minor_units = pos 5;
      step_size = pos 1;
      applies_after_minutes = some (pos 10);
    }
    ∷ []

abbrev used : Consumption ℕ
used = record { duration_minutes = 60; kwh = 20; idle_minutes = 8 }

abbrev no_tariffs : TariffService
no_tariffs = record { tariffs = []; currencies = []; default_currency = 840 }

accepted-preview_example :
    preview whole_floats 3 used (create_tariff 3 1 9 components no_tariffs).1 ≡ ok (pos 600)
unfolding create_tariff validate_tariff_components billable_idle ◌+ℤ◌
accepted-preview_example = accepted-preview whole_floats 3 1 9 components used no_tariffs refl refl
