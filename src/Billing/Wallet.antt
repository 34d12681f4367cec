-- ===== src/Billing/Wallet.antt =====
-- backend/src/evagg/billing/wallet.py: the append-only ledger, the balance derived from it, and the
-- idempotent confirmation of top-ups.
pub mod TopUps
mod Examples
use evaggregator.Base.{
  Bool, KeyEq, List, [], any_by, arith, false, filter_by, if◌then◌else◌, map, nat_beq, nat_eq, true,
  ℕ, ◌&&◌, ◌++◌, ◌==◌, ◌↔◌, ◌∷◌, ◌≡◌,
}
use evaggregator.Base.Int.{sum_ℤ, ℤ}

pub data EntryType : Type 0 where
  topup charge_deduction refund : EntryType

-- What an entry refers to, a text: `f"session:{session_id}"`, or any other one. A caller may send either
-- as the provider's transaction id.
pub data Reference : Type 0 where
  session_charge : ℕ → Reference
  psp_transaction : ℕ → Reference

abbrev pub reference_beq : Reference → Reference → Bool
reference_beq (session_charge a) (session_charge b) = nat_beq a b
reference_beq (psp_transaction a) (psp_transaction b) = nat_beq a b
reference_beq _ _ = false

pub reference_beq_iff : (a b : Reference) → (reference_beq a b ≡ true) ↔ (a ≡ b)
reference_beq_iff (session_charge a) (session_charge b) = ground arith
reference_beq_iff (psp_transaction a) (psp_transaction b) = ground arith
reference_beq_iff _ _ = ground arith

instance abbrev pub reference_eq : KeyEq Reference
reference_eq = record { agree = reference_beq; agree_iff = reference_beq_iff }

pub record LedgerEntry : Type 0 where
  pub wallet_id : ℕ
  pub amount_minor_units : ℤ
  pub type : EntryType
  pub reference_id : Reference

abbrev pub Ledger : Type 0
Ledger = List LedgerEntry

unfoldable pub append : ℕ → ℤ → EntryType → Reference → Ledger → Ledger
append wallet amount type reference l =
    l
    ++ record {
      wallet_id = wallet;
      amount_minor_units = amount;
      type = type;
      reference_id = reference;
    }
      ∷ []

unfoldable pub entries_for : ℕ → Ledger → List LedgerEntry
entries_for wallet l = filter_by (λ e. e.wallet_id == wallet) l

abbrev pub amount_of : LedgerEntry → ℤ
amount_of e = e.amount_minor_units

unfoldable pub sum_for_wallet : ℕ → Ledger → ℤ
unfolding entries_for
sum_for_wallet wallet l = sum_ℤ (map amount_of (entries_for wallet l))

pub has_reference : ℕ → Reference → Ledger → Bool
has_reference wallet reference l =
    any_by (λ e. (e.wallet_id == wallet) && (e.reference_id == reference)) l

-- `WalletService.handle_topup_webhook`
pub handle_topup_webhook : ℕ → Reference → ℤ → Ledger → Ledger
unfolding has_reference append
handle_topup_webhook wallet txn amount l =
    if has_reference wallet txn l then l else append wallet amount topup txn l

abbrev pub get_balance : ℕ → Ledger → ℤ
get_balance = sum_for_wallet
