-- ===== src/Billing/Invoices/Periods.antt =====
-- A session is billed in exactly one of two adjacent periods.
use evaggregator.Billing.Invoices.{SessionRecord, amount_of, period_total}
use evaggregator.Base.{
  Bool-cases, List, [], ap, arith, false, inl, inr, leb, ltb, true, ℕ, ◌∙◌, ◌∷◌, ◌≡◌, ◌≤◌,
}
use evaggregator.Base.Int.{+ℤ_assoc, int_laws, neg_part, pos_part, ◌+ℤ◌}

-- The totals of two adjacent periods add up to the total of the joined period: no session is lost
-- at the border or billed twice.
pub adjacent_periods :
    (start middle end : ℕ) (sessions : List SessionRecord)
    → start ≤ middle
    → middle ≤ end
    → period_total start middle sessions +ℤ period_total middle end sessions
      ≡ period_total start end sessions
unfolding period_total
adjacent_periods start middle end [] h k = omega int_laws
adjacent_periods start middle end (x ∷ xs) h k =
    let ih = adjacent_periods start middle end xs h k in
    elim (Bool-cases (leb start x.timestamp)) [
      | inr e ↦ let late : leb middle x.timestamp ≡ false = ground arith in rw (e, late) ih
      | inl e ↦ elim (Bool-cases (ltb x.timestamp middle)) [
        | inl f ↦
            let early : leb middle x.timestamp ≡ false = ground arith in
            let within : ltb x.timestamp end ≡ true = ground arith in
            rw (e, f, early, within) (+ℤ_assoc _ _ _ ∙ ap (λ t. amount_of x +ℤ t) ih)
        | inr f ↦
            let late : leb middle x.timestamp ≡ true = ground arith in
            elim (Bool-cases (ltb x.timestamp end)) [
              | inl g ↦ rw (e, f, late, g) (omega (int_laws, ap pos_part ih, ap neg_part ih))
              | inr g ↦ rw (e, f, late, g) ih
            ]
      ]
    ]
