-- ===== src/Billing/Sessions/Examples.antt =====
-- A driver with a card that is declined three times.
use evaggregator.Billing.Wallet.{Reference}
use evaggregator.Billing.Sessions.{
  BillingState, Charge, PaymentMethod, charge_card, charge_session, direct_card, handle_decline,
  mark_status, payment_failed, record_failure, schedule_retry,
}
use evaggregator.Billing.Sessions.Outcomes.{Outcome, charge-Outcome, status_of}
use evaggregator.Base.{
  Option, [], if◌then◌else◌, nat_eq, none, refl, some, true, ℕ, ◌+◌, ◌==◌, ◌∷◌, ◌≡◌,
}
use evaggregator.Base.Int.{pos, ℤ}

-- A provider that declines the token 13 and numbers the charges that it accepts.
abbrev provider : ℕ → ℤ → ℕ → Reference → ℕ → Option ℕ × ℕ
provider token amount currency key n = if token == 13 then (none, n) else (some n, n + 1)

abbrev card : PaymentMethod
card = record { id = 1; wallet_id = 2; type = direct_card; psp_token = some 13; is_default = true }

abbrev billing : BillingState ℕ
billing = record {
  methods = (2, card) ∷ [];
  ledger = [];
  provider = 0;
  statuses = [];
  failures = [];
  suspended = [];
  retries = [];
}

abbrev charge : ℕ → Charge
charge session = record {
  session_id = session;
  wallet_id = 2;
  driver_id = 3;
  amount_minor_units = pos 250;
  currency = 1;
}

charge-Outcome_example :
    let (r, s') = charge_session 3 1000 provider (charge 8) billing in
    Outcome 3 1000 provider (charge 8) billing r s'
charge-Outcome_example = charge-Outcome 3 1000 provider (charge 8) billing

declined_once :
    status_of 8 (charge_session 3 1000 provider (charge 8) billing).1 ≡ some payment_failed
unfolding charge_session charge_card handle_decline mark_status record_failure schedule_retry
declined_once = refl
