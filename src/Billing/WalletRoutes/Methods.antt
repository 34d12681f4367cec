-- ===== src/Billing/WalletRoutes/Methods.antt =====
-- A payment method that the routes have stored can be charged.
use evaggregator.Billing.Wallet.{Reference}
use evaggregator.Billing.Sessions.{
  BillingState, Charge, PaymentMethod, PaymentMethodStore, charge_method, charge_session,
  direct_card, get_default, is_direct_card, is_wallet_balance, other_method, set_default,
  wallet_balance,
}
use evaggregator.Billing.WalletRoutes.{
  MethodRequest, get_payment_method, is_given, respond_method, respond_methods, set_payment_method,
}
use evaggregator.Base.{
  Bool, Bool-cases, List, Option, Option-cases, [], ap, arith, inl, inr, nat_eq, ok, refl, some,
  sym, true, ℕ, ◌&&◌, ◌||◌, ◌∙◌, ◌∷◌, ◌≡◌,
}
use evaggregator.Base.Int.{ℤ}
use evaggregator.Base.Dict.{lookup, lookup-insert}

abbrev pub is_chargeable : PaymentMethod → Bool
is_chargeable m = is_wallet_balance m.type || (is_direct_card m.type && is_given m.psp_token)

abbrev pub AllChargeable : PaymentMethodStore → Type 0
AllChargeable s =
    (wallet : ℕ) (m : PaymentMethod) → lookup wallet s ≡ some m → is_chargeable m ≡ true

respond_method-AllChargeable :
    (q : MethodRequest) (s : PaymentMethodStore)
    → AllChargeable s
    → AllChargeable (respond_method q s).1
unfolding respond_method set_default get_default
respond_method-AllChargeable (get_payment_method w) s inv = inv
respond_method-AllChargeable (set_payment_method w other_method token id) s inv = inv
respond_method-AllChargeable (set_payment_method w wallet_balance token id) s inv = λ j m e.
    ground (arith, e, inv j m, lookup-insert w j (set_default id w wallet_balance token s).0 s)
respond_method-AllChargeable (set_payment_method w direct_card token id) s inv =
    elim (Bool-cases (is_given token)) [
      | inl g ↦ λ j m e.
          ground
            (arith, g, e, inv j m, lookup-insert w j (set_default id w direct_card token s).0 s)
      | inr n ↦ λ j m e. ground (arith, n, e, inv j m)
    ]

respond_methods-AllChargeable :
    (qs : List MethodRequest) (s : PaymentMethodStore)
    → AllChargeable s
    → AllChargeable (respond_methods qs s)
unfolding respond_methods
respond_methods-AllChargeable [] s inv = inv
respond_methods-AllChargeable (q ∷ qs) s inv =
    respond_methods-AllChargeable qs (respond_method q s).1 (respond_method-AllChargeable q s inv)

module _ {P : Type 0} (suspend_after now : ℕ)
    (provider_charge : ℕ → ℤ → ℕ → Reference → P → Option ℕ × P) where
  charge_method-ok :
      (c : Charge) (m : PaymentMethod) (s : BillingState P)
      → is_chargeable m ≡ true
      → (charge_method suspend_after now provider_charge c (some m) s).0 ≡ ok tt
  unfolding charge_method
  charge_method-ok c m s h = elim (Option-cases m.psp_token) [
    | inl e ↦ ground (arith, e, h)
    | inr (t, e) ↦ ground (arith, e, h)
  ]

  -- Where any requests to the routes have made the payment methods, from none at all, a finished session
  -- is never refused for the lack of a payment method, whichever wallet it is charged to and whatever the
  -- provider answers.
  pub stored_methods_charged :
      (qs : List MethodRequest) (c : Charge) (s : BillingState P)
      → s.methods ≡ respond_methods qs []
      → (charge_session suspend_after now provider_charge c s).0 ≡ ok tt
  unfolding charge_session get_default
  stored_methods_charged qs c s h = elim (Option-cases (lookup c.wallet_id s.methods)) [
    | inl e ↦ rw (charge_session, e) refl
    | inr (m, e) ↦
        rw (charge_session, e)
          (charge_method-ok c m s (
            respond_methods-AllChargeable qs [] (λ j k none_stored. ground (arith, none_stored))
              c.wallet_id m (sym (ap (lookup c.wallet_id) h) ∙ e)))
  ]
