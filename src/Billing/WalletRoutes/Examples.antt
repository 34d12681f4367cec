-- ===== src/Billing/WalletRoutes/Examples.antt =====
-- A driver who asks for a card without a token, sets one, and finishes a session.
use evaggregator.Billing.Wallet.{Reference}
use evaggregator.Billing.Sessions.{BillingState, Charge, charge_session, direct_card, other_method}
use evaggregator.Billing.WalletRoutes.{
  MethodRequest, get_payment_method, respond_methods, set_payment_method,
}
use evaggregator.Billing.WalletRoutes.Methods.{stored_methods_charged}
use evaggregator.Base.{
  List, Option, [], if◌then◌else◌, nat_eq, none, ok, refl, some, ℕ, ◌+◌, ◌==◌, ◌∷◌, ◌≡◌,
}
use evaggregator.Base.Int.{pos, ℤ}

-- A provider that declines the token 13 and numbers the charges that it accepts.
abbrev provider : ℕ → ℤ → ℕ → Reference → ℕ → Option ℕ × ℕ
provider token amount currency key n = if token == 13 then (none, n) else (some n, n + 1)

abbrev requests : List MethodRequest
requests =
    set_payment_method 2 direct_card none 1
    ∷ set_payment_method 2 direct_card (some 44) 2
    ∷ set_payment_method 2 other_method none 3
    ∷ get_payment_method 2
    ∷ []

abbrev billing : BillingState ℕ
billing = record {
  methods = respond_methods requests [];
  ledger = [];
  provider = 0;
  statuses = [];
  failures = [];
  suspended = [];
  retries = [];
}

abbrev charge : Charge
charge = record {
  session_id = 8;
  wallet_id = 2;
  driver_id = 3;
  amount_minor_units = pos 250;
  currency = 1;
}

stored_methods_charged_example : (charge_session 3 1000 provider charge billing).0 ≡ ok tt
stored_methods_charged_example = stored_methods_charged 3 1000 provider requests charge billing refl
