-- ===== src/Billing/WalletRoutes.antt =====
-- backend/src/evagg/billing/wallet_router.py and payment_method_router.py, and the start of a top-up in
-- wallet.py: the routes to a wallet and its payment method. `key` is the random part of the idempotency
-- key, and a text is a number, the empty one 0.
pub mod Methods
mod Examples
use evaggregator.Billing.Wallet.{Ledger, Reference, get_balance, handle_topup_webhook}
use evaggregator.Billing.Sessions.{
  PaymentMethod, PaymentMethodStore, PaymentMethodType, direct_card, get_default, is_direct_card,
  other_method, set_default, wallet_balance,
}
use evaggregator.Base.{
  Bool, List, Option, [], false, if◌then◌else◌, nat_eq, none, not, some, true, ℕ, ◌&&◌, ◌==◌, ◌∷◌,
}
use evaggregator.Base.Int.{ℤ}

pub record WalletState (P : Type 0) : Type 0 where
  pub ledger : Ledger
  pub provider : P

pub data WalletRequest : Type 0 where
  -- wallet, token, amount, currency and key
  post_topup : ℕ → ℕ → ℤ → ℕ → ℕ → WalletRequest
  -- wallet, transaction and amount
  post_topup_webhook : ℕ → Reference → ℤ → WalletRequest
  get_wallet_balance : ℕ → WalletRequest

pub data WalletAnswer : Type 0 where
  -- the provider's reference, or its error
  topup_answer : Option ℕ → WalletAnswer
  webhook_answer : WalletAnswer
  balance_answer : ℕ → ℤ → WalletAnswer

abbrev pub started : {P : Type 0} → Ledger → Option ℕ × P → WalletAnswer × WalletState P
started l (reply, p) = (topup_answer reply, record { ledger = l; provider = p })

-- The key of a top-up is the wallet's id and a random one.
module _ {P : Type 0} (provider_charge : ℕ → ℤ → ℕ → ℕ × ℕ → P → Option ℕ × P) where
  unfoldable pub initiate_topup : ℕ → ℕ → ℤ → ℕ → ℕ → WalletState P → WalletAnswer × WalletState P
  initiate_topup wallet token amount currency key s =
      started s.ledger (provider_charge token amount currency (wallet, key) s.provider)

  unfoldable pub respond_wallet : WalletRequest → WalletState P → WalletAnswer × WalletState P
  respond_wallet (post_topup wallet token amount currency key) s =
      initiate_topup wallet token amount currency key s
  respond_wallet (post_topup_webhook wallet txn amount) s =
      (webhook_answer, record s { ledger = handle_topup_webhook wallet txn amount s.ledger })
  respond_wallet (get_wallet_balance wallet) s =
      (balance_answer wallet (get_balance wallet s.ledger), s)

pub data MethodRequest : Type 0 where
  get_payment_method : ℕ → MethodRequest
  -- wallet, type, token and the id of the new method
  set_payment_method : ℕ → PaymentMethodType → Option ℕ → ℕ → MethodRequest

pub data MethodAnswer : Type 0 where
  default_answer : Option PaymentMethod → MethodAnswer
  method_answer : PaymentMethod → MethodAnswer
  -- both 422
  invalid_type token_required : MethodAnswer

abbrev pub validate_type : PaymentMethodType → Bool
validate_type wallet_balance = true
validate_type direct_card = true
validate_type other_method = false

-- `bool(psp_token)`
abbrev pub is_given : Option ℕ → Bool
is_given none = false
is_given (some token) = not (token == 0)

abbrev pub set_answer : PaymentMethod × PaymentMethodStore → MethodAnswer × PaymentMethodStore
set_answer (m, s) = (method_answer m, s)

unfoldable pub respond_method :
    MethodRequest → PaymentMethodStore → MethodAnswer × PaymentMethodStore
respond_method (get_payment_method wallet) s = (default_answer (get_default wallet s), s)
respond_method (set_payment_method wallet type token id) s =
    if not (validate_type type)
    then (invalid_type, s)
    else if is_direct_card type && not (is_given token)
    then (token_required, s)
    else set_answer (set_default id wallet type token s)

unfoldable pub respond_methods : List MethodRequest → PaymentMethodStore → PaymentMethodStore
respond_methods [] s = s
respond_methods (q ∷ qs) s = respond_methods qs (respond_method q s).1
