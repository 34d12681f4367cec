-- ===== src/Billing/Sessions.antt =====
-- backend/src/evagg/billing/payment_methods.py and session_billing.py: charging a finished session
-- to the driver's payment method. The payment provider is an interface: its outcome is a parameter.
pub mod Outcomes
pub mod Suspension
mod Examples
use evaggregator.Billing.Wallet.{Ledger, Reference, append, charge_deduction, session_charge}
use evaggregator.Base.{
  Bool, Exec, List, Option, [], any_by, err, false, if◌then◌else◌, leb, nat_eq, none, not, ok, some,
  suc, true, zero, ℕ, ◌*◌, ◌++◌, ◌+◌, ◌==◌, ◌∷◌,
}
use evaggregator.Base.Dict.{Dict, insert, lookup, lookup_or}
use evaggregator.Base.Int.{neg, ℤ}

pub data PaymentMethodType : Type 0 where
  wallet_balance direct_card other_method : PaymentMethodType

abbrev pub is_wallet_balance : PaymentMethodType → Bool
is_wallet_balance wallet_balance = true
is_wallet_balance _ = false

abbrev pub is_direct_card : PaymentMethodType → Bool
is_direct_card direct_card = true
is_direct_card _ = false

pub record PaymentMethod : Type 0 where
  pub id : ℕ
  pub wallet_id : ℕ
  pub type : PaymentMethodType
  pub psp_token : Option ℕ
  pub is_default : Bool

abbrev pub PaymentMethodStore : Type 0
PaymentMethodStore = Dict ℕ PaymentMethod

pub add : PaymentMethod → PaymentMethodStore → PaymentMethodStore
add m s = if m.is_default then insert m.wallet_id m s else s

unfoldable pub get_default : ℕ → PaymentMethodStore → Option PaymentMethod
get_default wallet s = lookup wallet s

-- The new method's id is the first argument.
unfoldable pub set_default :
    ℕ → ℕ → PaymentMethodType → Option ℕ → PaymentMethodStore → PaymentMethod × PaymentMethodStore
set_default new_id wallet type token s =
    let m : PaymentMethod = record {
      id = new_id;
      wallet_id = wallet;
      type = type;
      psp_token = token;
      is_default = true;
    } in
    (m, insert wallet m s)

pub data PaymentStatus : Type 0 where
  pending charged payment_failed : PaymentStatus

pub record Retry : Type 0 where
  pub session_id : ℕ
  pub attempt_number : ℕ
  pub next_attempt_at : ℕ

-- The stores that the service writes to, and the provider's own state.
pub record BillingState (P : Type 0) : Type 0 where
  pub methods : PaymentMethodStore
  pub ledger : Ledger
  pub provider : P
  pub statuses : Dict ℕ PaymentStatus
  pub failures : Dict ℕ ℕ
  pub suspended : List ℕ
  pub retries : List Retry

pub data BillingError : Type 0 where
  no_payment_method : BillingError

pub record Charge : Type 0 where
  pub session_id : ℕ
  pub wallet_id : ℕ
  pub driver_id : ℕ
  pub amount_minor_units : ℤ
  pub currency : ℕ

-- `DEFAULT_RETRY_BACKOFF_MINUTES[min(attempt_number - 1, 2)]`; index -1 is the last entry.
pub backoff_minutes_for_attempt : ℕ → ℕ
backoff_minutes_for_attempt zero = 120
backoff_minutes_for_attempt (suc zero) = 5
backoff_minutes_for_attempt (suc (suc zero)) = 30
backoff_minutes_for_attempt (suc (suc (suc n))) = 120

-- ticks of a minute
abbrev pub minute : ℕ
minute = 60_000_000

module _ {P : Type 0} where
  pub mark_status : ℕ → PaymentStatus → BillingState P → BillingState P
  mark_status session status s = record s { statuses = insert session status s.statuses }

  pub record_failure : ℕ → BillingState P → ℕ × BillingState P
  record_failure driver s =
      let count = lookup_or driver 0 s.failures + 1 in
      (count, record s { failures = insert driver count s.failures })

  pub reset : ℕ → BillingState P → BillingState P
  reset driver s = record s { failures = insert driver 0 s.failures }

  pub schedule_retry : ℕ → ℕ → ℕ → BillingState P → BillingState P
  schedule_retry session attempt at s = record s {
    retries =
        s.retries
        ++ record { session_id = session; attempt_number = attempt; next_attempt_at = at } ∷ [];
  }

  pub suspend : ℕ → BillingState P → BillingState P
  suspend driver s = record s { suspended = driver ∷ s.suspended }

  pub is_suspended : ℕ → BillingState P → Bool
  is_suspended driver s = any_by (λ d. d == driver) s.suspended

  pub charge_wallet : Charge → BillingState P → BillingState P
  unfolding mark_status
  charge_wallet c s = mark_status c.session_id charged (record s {
    ledger =
        append c.wallet_id (neg c.amount_minor_units) charge_deduction (session_charge c.session_id)
          s.ledger;
  })

module _ {P : Type 0} (suspend_after : ℕ) (now : ℕ) where
  -- the `except PaymentProviderError` block
  pub handle_decline : Charge → BillingState P → BillingState P
  unfolding mark_status record_failure schedule_retry suspend
  handle_decline c s =
      let (count, s₁) = record_failure c.driver_id (mark_status c.session_id payment_failed s) in
      let at = now + backoff_minutes_for_attempt count * minute in
      let s₂ = schedule_retry c.session_id count at s₁ in
      if leb suspend_after count then suspend c.driver_id s₂ else s₂

  -- The provider takes the token, the amount, the currency and the idempotency key, and accepts
  -- the charge with a reference or raises.
  module _ (provider_charge : ℕ → ℤ → ℕ → Reference → P → Option ℕ × P) where
    pub charge_card : Charge → ℕ → BillingState P → BillingState P
    unfolding mark_status reset
    charge_card c token s =
        let (reply, p) =
          provider_charge token c.amount_minor_units c.currency (session_charge c.session_id)
            s.provider in
        let s' : BillingState P = record s { provider = p } in
        elim reply [
          | none ↦ handle_decline c s'
          | some _ ↦ reset c.driver_id (mark_status c.session_id charged s')
        ]

    unfoldable pub charge_method :
        Charge → Option PaymentMethod → Exec BillingError (BillingState P) (Unit {0})
    unfolding charge_wallet
    charge_method c none s = (ok tt, charge_wallet c s)
    charge_method c (some m) s =
        if is_wallet_balance m.type
        then (ok tt, charge_wallet c s)
        else if not (is_direct_card m.type)
        then (err no_payment_method, s)
        else elim m.psp_token [
          | none ↦ (err no_payment_method, s)
          | some token ↦ (ok tt, charge_card c token s)
        ]

    unfoldable pub charge_session : Charge → Exec BillingError (BillingState P) (Unit {0})
    unfolding charge_method get_default
    charge_session c s = charge_method c (get_default c.wallet_id s.methods) s
