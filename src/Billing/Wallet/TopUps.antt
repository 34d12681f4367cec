-- ===== src/Billing/Wallet/TopUps.antt =====
-- A confirmation is credited once, however often and in whatever order it is delivered.
use evaggregator.Billing.Wallet.{
  EntryType, Ledger, Reference, append, get_balance, handle_topup_webhook, has_reference,
  sum_for_wallet, topup,
}
use evaggregator.Base.{
  Bool-cases, List, [], any_by-append, ap, arith, filter_by-append, if◌then◌else◌, inl, inr, nat_eq,
  not, true, ℕ, ◌&&◌, ◌++◌, ◌==◌, ◌∙◌, ◌∷◌, ◌≡◌,
}
use evaggregator.Base.Int.{+ℤ-zero, sum_ℤ-append, ℤ, ◌+ℤ◌}
use evaggregator.Base.Dict.{beq_refl}
use mathlib.Core.List.{map-append}

pub record Webhook : Type 0 where
  pub wallet : ℕ
  pub txn : Reference
  pub amount : ℤ

abbrev pub deliver : Webhook → Ledger → Ledger
deliver w l = handle_topup_webhook w.wallet w.txn w.amount l

abbrev pub deliver_all : List Webhook → Ledger → Ledger
deliver_all [] l = l
deliver_all (w ∷ ws) l = deliver_all ws (deliver w l)

-- An appended entry adds its amount to its own wallet, and leaves the others.
pub sum_for_wallet-append :
    (wallet other : ℕ) (amount : ℤ) (type : EntryType) (r : Reference) (l : Ledger)
    → sum_for_wallet other (append wallet amount type r l)
      ≡ (if wallet == other then sum_for_wallet other l +ℤ amount else sum_for_wallet other l)
unfolding sum_for_wallet append
sum_for_wallet-append wallet other amount type r l = elim (Bool-cases (wallet == other)) [
  | inl e ↦
      simp (filter_by-append, map-append, sum_ℤ-append, e)
        (ap (λ t. sum_for_wallet other l +ℤ t) (+ℤ-zero amount))
  | inr n ↦ simp (filter_by-append, map-append, sum_ℤ-append, n) (+ℤ-zero _)
]

-- A confirmation adds its amount to its wallet if the wallet has no entry for the transaction yet;
-- a repeated one, whatever its amount, changes nothing. No other wallet's balance moves.
pub topup_credits_once :
    (wallet other : ℕ) (txn : Reference) (amount : ℤ) (l : Ledger)
    → get_balance other (handle_topup_webhook wallet txn amount l) ≡ (
        if (wallet == other) && not (has_reference wallet txn l)
        then get_balance other l +ℤ amount
        else get_balance other l)
unfolding handle_topup_webhook
topup_credits_once wallet other txn amount l = elim (Bool-cases (has_reference wallet txn l)) [
  | inl e ↦ rw e (ground arith)
  | inr n ↦ rw n (sum_for_wallet-append wallet other amount topup txn l ∙ ground arith)
]

has_reference-deliver :
    (w v : Webhook) (l : Ledger)
    → has_reference w.wallet w.txn l ≡ true
    → has_reference w.wallet w.txn (deliver v l) ≡ true
unfolding handle_topup_webhook has_reference append
has_reference-deliver w v l h = elim (Bool-cases (has_reference v.wallet v.txn l)) [
  | inl e ↦ rw e h
  | inr n ↦ rw n (any_by-append _ l _ ∙ rw h)
]

has_reference-deliver_self :
    (w : Webhook) (l : Ledger) → has_reference w.wallet w.txn (deliver w l) ≡ true
unfolding handle_topup_webhook has_reference append
has_reference-deliver_self w l = elim (Bool-cases (has_reference w.wallet w.txn l)) [
  | inl e ↦ rw e e
  | inr n ↦ rw n (any_by-append _ l _ ∙ rw (n, beq_refl w.wallet, beq_refl w.txn))
]

-- Deliveries after a confirmation that has come may leave out any repetition of it.
drop_repeated :
    (w v : Webhook) (ys zs : List Webhook) (l : Ledger)
    → v.wallet ≡ w.wallet
    → v.txn ≡ w.txn
    → has_reference w.wallet w.txn l ≡ true
    → deliver_all (ys ++ (v ∷ zs)) l ≡ deliver_all (ys ++ zs) l
unfolding handle_topup_webhook
drop_repeated w v [] zs l pw pt h = rw (pw, pt, h)
drop_repeated w v (y ∷ ys) zs l pw pt h =
    drop_repeated w v ys zs (deliver y l) pw pt (has_reference-deliver w y l h)

-- A second delivery of a confirmation, at any later point and with any amount, leaves the ledger
-- that all the deliveries produce exactly as it would be without it.
pub redelivery_ignored :
    (w v : Webhook) (xs ys zs : List Webhook) (l : Ledger)
    → v.wallet ≡ w.wallet
    → v.txn ≡ w.txn
    → deliver_all (xs ++ (w ∷ (ys ++ (v ∷ zs)))) l ≡ deliver_all (xs ++ (w ∷ (ys ++ zs))) l
redelivery_ignored w v [] ys zs l pw pt =
    drop_repeated w v ys zs (deliver w l) pw pt (has_reference-deliver_self w l)
redelivery_ignored w v (x ∷ xs) ys zs l pw pt = redelivery_ignored w v xs ys zs (deliver x l) pw pt
