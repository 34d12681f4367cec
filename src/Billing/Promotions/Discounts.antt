-- ===== src/Billing/Promotions/Discounts.antt =====
-- What a discount takes off.
use evaggregator.Billing.Promotions.{Promotion, apply_discount, percent, round_basis_points}
use evaggregator.Base.{arith, ok, subst, ℕ, ◌*◌, ◌+◌, ◌-◌, ◌≡◌, ◌≤◌}

-- Rounding is to a nearest whole unit.
pub round_basis_points_nearest :
    (n : ℕ)
    → (2 * (10_000 * round_basis_points n) ≤ 2 * n + 10_000)
      × (2 * n ≤ 2 * (10_000 * round_basis_points n) + 10_000)
unfolding round_basis_points
round_basis_points_nearest n = ground arith

round_basis_points_mono : (m n : ℕ) → m ≤ n → round_basis_points m ≤ round_basis_points n
unfolding round_basis_points
round_basis_points_mono m n h = ground arith

round_basis_points_whole : (n : ℕ) → round_basis_points (n * 10_000) ≡ n
unfolding round_basis_points
round_basis_points_whole n = ground arith

mul_le_right : (a b c : ℕ) → b ≤ c → a * b ≤ a * c
mul_le_right a b c h = grind arith

pub discount-le-base : (base value : ℕ) → value ≤ 10_000 → round_basis_points (base * value) ≤ base
discount-le-base base value h =
    subst (λ t. round_basis_points (base * value) ≤ t) (round_basis_points_whole base)
      (round_basis_points_mono (base * value) (base * 10_000) (mul_le_right base value 10_000 h))

-- A percent discount of at most 100 % never needs the clamp at 0: the price and the rounded discount
-- add up to the base amount, and the discount is within half a minor unit of base * value / 10000.
pub percent_discount_exact :
    (base : ℕ) (p : Promotion)
    → p.discount_type ≡ percent
    → p.value ≤ 10_000
    → (d : ℕ) × (apply_discount base p ≡ ok (base - d))
      × (d ≤ base)
      × (2 * (10_000 * d) ≤ 2 * (base * p.value) + 10_000)
      × (2 * (base * p.value) ≤ 2 * (10_000 * d) + 10_000)
unfolding apply_discount
percent_discount_exact base p e h =
    let near = round_basis_points_nearest (base * p.value) in
    (round_basis_points (base * p.value), rw e, discount-le-base base p.value h, near.0, near.1)

-- Of two percent promotions, the one with the greater value never gives the greater price.
pub percent_discount_mono :
    (base : ℕ) (p q : Promotion)
    → p.discount_type ≡ percent
    → q.discount_type ≡ percent
    → p.value ≤ q.value
    → (x y : ℕ) × (apply_discount base p ≡ ok x) × (apply_discount base q ≡ ok y) × (y ≤ x)
unfolding apply_discount
percent_discount_mono base p q ep eq h =
    let more =
      round_basis_points_mono (base * p.value) (base * q.value)
        (mul_le_right base p.value q.value h) in
    (
      base - round_basis_points (base * p.value),
      base - round_basis_points (base * q.value),
      rw ep,
      rw eq,
      omega (arith, more),
    )
