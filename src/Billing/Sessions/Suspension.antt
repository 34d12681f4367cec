-- ===== src/Billing/Sessions/Suspension.antt =====
-- When charger access is suspended.
use evaggregator.Billing.Sessions.{
  BillingState, Charge, handle_decline, is_suspended, mark_status, record_failure, schedule_retry,
  suspend,
}
use evaggregator.Base.{
  All, List, [], arith, false, leb, length, nat_eq, subst, ℕ, ◌+◌, ◌<◌, ◌||◌, ◌∙◌, ◌∷◌, ◌≡◌,
}
use evaggregator.Base.Dict.{lookup-insert_self, lookup_or}

-- The driver's run of failed charges.
abbrev pub failure_count : {P : Type 0} → ℕ → BillingState P → ℕ
failure_count driver s = lookup_or driver 0 s.failures

module _ {P : Type 0} (after now : ℕ) where
  -- Charges of one driver's sessions that the card declines, one after the other.
  abbrev pub decline_all : List Charge → BillingState P → BillingState P
  decline_all [] s = s
  decline_all (c ∷ cs) s = decline_all cs (handle_decline after now c s)

  failure_count-handle_decline :
      (c : Charge) (s : BillingState P)
      → failure_count c.driver_id (handle_decline after now c s) ≡ failure_count c.driver_id s + 1
  unfolding handle_decline mark_status record_failure schedule_retry suspend
  failure_count-handle_decline c s =
      ground (arith, lookup-insert_self c.driver_id (failure_count c.driver_id s + 1) s.failures)

  is_suspended-handle_decline :
      (c : Charge) (s : BillingState P)
      → is_suspended c.driver_id (handle_decline after now c s)
        ≡ (leb after (failure_count c.driver_id s + 1) || is_suspended c.driver_id s)
  unfolding handle_decline mark_status record_failure schedule_retry suspend is_suspended
  is_suspended-handle_decline c s = ground arith

  suspended_by_count :
      (driver : ℕ) (cs : List Charge) (s : BillingState P)
      → All (λ c. c.driver_id ≡ driver) cs
      → is_suspended driver s ≡ leb after (failure_count driver s)
      → is_suspended driver (decline_all cs s) ≡ leb after (failure_count driver s + length cs)
  suspended_by_count driver [] s all start = start ∙ ground arith
  suspended_by_count driver (c ∷ cs) s all start =
      let s' = handle_decline after now c s in
      let counted : failure_count driver s' ≡ failure_count driver s + 1 =
        subst (λ d. failure_count d s' ≡ failure_count d s + 1) all.0
          (failure_count-handle_decline c s) in
      let held : is_suspended driver s'
          ≡ (leb after (failure_count driver s + 1) || is_suspended driver s) =
        subst (λ d. is_suspended d s' ≡ (leb after (failure_count d s + 1) || is_suspended d s))
          all.0 (is_suspended-handle_decline c s) in
      suspended_by_count driver cs s' all.1 (ground (arith, counted, held, start))
      ∙ ground (arith, counted)

  -- A driver who is not suspended and has no failures on record is suspended after a run of
  -- declined charges exactly if the run is at least as long as the limit, which is not zero.
  pub suspended_after_limit :
      (driver : ℕ) (cs : List Charge) (s : BillingState P)
      → 0 < after
      → All (λ c. c.driver_id ≡ driver) cs
      → failure_count driver s ≡ 0
      → is_suspended driver s ≡ false
      → is_suspended driver (decline_all cs s) ≡ leb after (length cs)
  suspended_after_limit driver cs s h all none_failed free =
      suspended_by_count driver cs s all (free ∙ ground (arith, none_failed))
      ∙ ground (arith, none_failed)
