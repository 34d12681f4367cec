-- ===== src/Billing/Sessions/Outcomes.antt =====
-- What a charge leaves behind: a session is paid or marked as failed, never silently unbilled.
use evaggregator.Base.{
  Bool-cases, Option, Option-cases, Result, [], arith, err, inl, inr, nat_eq, none, ok, refl, some,
  suc, true, zero, ℕ, ◌*◌, ◌++◌, ◌+◌, ◌∷◌, ◌≡◌, ◌≢◌, ◌≤◌, ◌⊎◌,
}
use evaggregator.Billing.Sessions.{
  BillingError, BillingState, Charge, PaymentMethod, PaymentMethodStore, PaymentMethodType,
  PaymentStatus, backoff_minutes_for_attempt, charge_card, charge_method, charge_session,
  charge_wallet, charged, direct_card, get_default, handle_decline, is_direct_card,
  is_wallet_balance, mark_status, minute, no_payment_method, other_method, payment_failed,
  record_failure, reset, schedule_retry, suspend, wallet_balance,
}
use evaggregator.Base.Dict.{lookup, lookup-insert_self, lookup_or}
use evaggregator.Billing.Wallet.{Reference, append, charge_deduction, session_charge}
use evaggregator.Base.Int.{neg, ℤ}

abbrev pub status_of : {P : Type 0} → ℕ → BillingState P → Option PaymentStatus
status_of session s = lookup session s.statuses

-- The default payment method of a wallet, by what it can be charged with.
abbrev pub PaysByWallet : ℕ → PaymentMethodStore → Type 0
PaysByWallet wallet ms =
    (lookup wallet ms ≡ none)
    ⊎ ((m : PaymentMethod) × (lookup wallet ms ≡ some m) × (m.type ≡ wallet_balance))

abbrev pub PaysByCard : ℕ → ℕ → PaymentMethodStore → Type 0
PaysByCard wallet token ms =
    (m : PaymentMethod) × (lookup wallet ms ≡ some m)
    × (m.type ≡ direct_card)
    × (m.psp_token ≡ some token)

abbrev pub CannotPay : ℕ → PaymentMethodStore → Type 0
CannotPay wallet ms =
    (m : PaymentMethod) × (lookup wallet ms ≡ some m)
    × (m.type ≢ wallet_balance)
    × ((m.type ≢ direct_card) ⊎ (m.psp_token ≡ none))

-- The minutes until the retry after so many failures in a row.
abbrev pub IsBackOff : ℕ → ℕ → Type 0
IsBackOff count minutes =
    (count ≡ 1 → minutes ≡ 5) × (count ≡ 2 → minutes ≡ 30) × (3 ≤ count → minutes ≡ 120)

backoff-IsBackOff : (count : ℕ) → IsBackOff count (backoff_minutes_for_attempt count)
unfolding backoff_minutes_for_attempt
backoff-IsBackOff zero = ground arith
backoff-IsBackOff (suc zero) = ground arith
backoff-IsBackOff (suc (suc zero)) = ground arith
backoff-IsBackOff (suc (suc (suc n))) = ground arith

is_wallet_balance-eq : (t : PaymentMethodType) → is_wallet_balance t ≡ true → t ≡ wallet_balance
is_wallet_balance-eq wallet_balance h = refl
is_wallet_balance-eq direct_card h = ground (arith, h)
is_wallet_balance-eq other_method h = ground (arith, h)

is_direct_card-eq : (t : PaymentMethodType) → is_direct_card t ≡ true → t ≡ direct_card
is_direct_card-eq wallet_balance h = ground (arith, h)
is_direct_card-eq direct_card h = refl
is_direct_card-eq other_method h = ground (arith, h)

module _ {P : Type 0} (after now : ℕ) (provider : ℕ → ℤ → ℕ → Reference → P → Option ℕ × P) where
  -- What a call of `charge_session` has done, by the default payment method.
  pub data Outcome (c : Charge) (s : BillingState P)
      : Result BillingError (Unit {0}) → BillingState P → Type 0 where
    refused : CannotPay c.wallet_id s.methods → Outcome c s (err no_payment_method) s
    debited :
        PaysByWallet c.wallet_id s.methods
        → (s' : BillingState P) → status_of c.session_id s' ≡ some charged
        → s'.ledger
          ≡ append c.wallet_id
              (neg c.amount_minor_units)
              charge_deduction
              (session_charge c.session_id)
              s.ledger
        → s'.retries ≡ s.retries
        → Outcome c s (ok tt) s'
    paid_by_card :
        (s' : BillingState P) (token txn : ℕ)
        → PaysByCard c.wallet_id token s.methods
        → (provider token c.amount_minor_units c.currency
            (session_charge c.session_id)
            s.provider).0
          ≡ some txn
        → status_of c.session_id s' ≡ some charged
        → s'.ledger ≡ s.ledger
        → lookup c.driver_id s'.failures ≡ some 0
        → s'.retries ≡ s.retries
        → Outcome c s (ok tt) s'
    declined :
        (s' : BillingState P) (token count minutes : ℕ)
        → PaysByCard c.wallet_id token s.methods
        → (provider token c.amount_minor_units c.currency
            (session_charge c.session_id)
            s.provider).0
          ≡ none
        → status_of c.session_id s' ≡ some payment_failed
        → s'.ledger ≡ s.ledger
        → count ≡ lookup_or c.driver_id 0 s.failures + 1
        → lookup c.driver_id s'.failures ≡ some count
        → IsBackOff count minutes
        → s'.retries
          ≡ s.retries
            ++ record {
              session_id = c.session_id;
              attempt_number = count;
              next_attempt_at = now + minutes * minute;
            }
              ∷ []
        → Outcome c s (ok tt) s'

  wallet-Outcome :
      (c : Charge) (s : BillingState P)
      → PaysByWallet c.wallet_id s.methods
      → Outcome c s (ok tt) (charge_wallet c s)
  unfolding charge_wallet mark_status
  wallet-Outcome c s by =
      debited by _ (lookup-insert_self c.session_id charged s.statuses) refl refl

  decline-Outcome :
      (c : Charge) (token : ℕ) (s : BillingState P) (p : P)
      → (provider token c.amount_minor_units c.currency (session_charge c.session_id) s.provider).0
        ≡ none
      → PaysByCard c.wallet_id token s.methods
      → Outcome c s (ok tt) (handle_decline after now c (record s { provider = p }))
  unfolding handle_decline mark_status record_failure schedule_retry suspend
  decline-Outcome c token s p e by =
      let count = lookup_or c.driver_id 0 s.failures + 1 in
      let marked = lookup-insert_self c.session_id payment_failed s.statuses in
      let counted = lookup-insert_self c.driver_id count s.failures in
      declined _ token count (backoff_minutes_for_attempt count) by e (ground (arith, marked))
        (ground arith) refl (ground (arith, counted)) (backoff-IsBackOff count) (ground arith)

  card-Outcome :
      (c : Charge) (token : ℕ) (s : BillingState P)
      → PaysByCard c.wallet_id token s.methods
      → Outcome c s (ok tt) (charge_card after now provider c token s)
  unfolding charge_card mark_status reset
  card-Outcome c token s by =
      let ask =
        provider token c.amount_minor_units c.currency (session_charge c.session_id) s.provider in
      elim (Option-cases ask.0) [
        | inl e ↦ rw (e, charge_card) (decline-Outcome c token s ask.1 e by)
        | inr (txn, e) ↦
            rw (e, charge_card)
              (paid_by_card _ token txn by e (lookup-insert_self c.session_id charged s.statuses)
                refl (lookup-insert_self c.driver_id 0 s.failures) refl)
      ]

  method-Outcome :
      (c : Charge) (m : Option PaymentMethod) (s : BillingState P)
      → lookup c.wallet_id s.methods ≡ m
      → let (r, s') = charge_method after now provider c m s in Outcome c s r s'
  unfolding charge_method
  method-Outcome c none s d = wallet-Outcome c s (inl d)
  method-Outcome c (some m) s known = elim (Bool-cases (is_wallet_balance m.type)) [
    | inl w ↦ rw w (wallet-Outcome c s (inr (m, known, is_wallet_balance-eq m.type w)))
    | inr nw ↦ elim (Bool-cases (is_direct_card m.type)) [
      | inr nd ↦
          rw (nw, nd)
            (refused (m, known, λ e. ground (arith, nw, e), inl (λ e. ground (arith, nd, e))))
      | inl d ↦ elim (Option-cases m.psp_token) [
        | inl e ↦ rw (nw, d, e) (refused (m, known, λ e. ground (arith, nw, e), inr e))
        | inr (token, e) ↦
            rw (nw, d, e) (card-Outcome c token s (m, known, is_direct_card-eq m.type d, e))
      ]
    ]
  ]

  -- A call raises that there is no usable method, and changes nothing, only if the default method is
  -- neither the wallet nor a card with a token. With the wallet as the default, or with none, it marks the
  -- session charged and debits the wallet by the amount. With a card, it asks the provider to charge
  -- that card: where it accepts, the session is charged, the failures are reset and the ledger stays; where it
  -- declines, the session is marked failed, one more failure is counted, and exactly one retry is
  -- scheduled, 5, 30 or 120 minutes later for the first, the second and any further failure in a row.
  pub charge-Outcome :
      (c : Charge) (s : BillingState P)
      → let (r, s') = charge_session after now provider c s in Outcome c s r s'
  unfolding charge_session get_default
  charge-Outcome c s = method-Outcome c (lookup c.wallet_id s.methods) s refl
