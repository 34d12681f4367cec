-- ===== src/Billing/Invoices.antt =====
-- backend/src/evagg/billing/invoicing.py: the billing cycle of an account. Invoices are kept in a
-- dict by their id; `KeyError` of a missing one is an error value.
pub mod Periods
pub mod Immutable
mod Examples
use evaggregator.Base.{
  Bool, Exec, List, Option, [], err, false, filter_by, if◌then◌else◌, leb, ltb, map, nat_eq, none,
  ok, pure, some, true, ℕ, ◌&&◌, ◌++◌, ◌==◌, ◌>>◌, ◌∷◌,
}
use evaggregator.Base.Dict.{Dict, insert, lookup}
use evaggregator.Base.Int.{sum_ℤ, ℤ, ◌+ℤ◌}

pub data InvoiceStatus : Type 0 where
  draft issued paid overdue : InvoiceStatus

pub record SessionRecord : Type 0 where
  pub session_id : ℕ
  pub account_id : ℕ
  pub timestamp : ℕ
  pub amount_minor_units : ℤ

pub record Invoice : Type 0 where
  pub id : ℕ
  pub tenant_id : ℕ
  pub account_id : ℕ
  pub period_start : ℕ
  pub period_end : ℕ
  pub status : InvoiceStatus
  pub total_minor_units : ℤ
  pub due_at : Option ℕ

pub record InvoiceAdjustment : Type 0 where
  pub id : ℕ
  pub invoice_id : ℕ
  pub amount_minor_units : ℤ
  pub reason : ℕ

pub record InvoiceStore : Type 0 where
  pub invoices : Dict ℕ Invoice
  pub adjustments : List InvoiceAdjustment

pub data InvoiceError : Type 0 where
  key_error not_found immutable : InvoiceError

-- `create`; the new invoice's id is the first argument
pub create : ℕ → ℕ → ℕ → ℕ → ℕ → ℤ → Option ℕ → InvoiceStore → Invoice × InvoiceStore
create new_id tenant account start end total due_at s =
    let invoice : Invoice = record {
      id = new_id;
      tenant_id = tenant;
      account_id = account;
      period_start = start;
      period_end = end;
      status = draft;
      total_minor_units = total;
      due_at = due_at;
    } in
    (invoice, record s { invoices = insert new_id invoice s.invoices })

abbrev pub get : ℕ → InvoiceStore → Option Invoice
get i s = lookup i s.invoices

-- `self._invoices[invoice_id].field = value`, which raises on a missing invoice
pub change_invoice : ℕ → (Invoice → Invoice) → Exec InvoiceError InvoiceStore (Unit {0})
change_invoice i f s = elim (get i s) [
  | none ↦ (err key_error, s)
  | some x ↦ (ok tt, record s { invoices = insert i (f x) s.invoices })
]

pub update_status : ℕ → InvoiceStatus → Exec InvoiceError InvoiceStore (Unit {0})
unfolding change_invoice
update_status i status = change_invoice i (λ x. record x { status = status })

pub set_total : ℕ → ℤ → Exec InvoiceError InvoiceStore (Unit {0})
unfolding change_invoice
set_total i total = change_invoice i (λ x. record x { total_minor_units = total })

pub apply_adjustment : InvoiceAdjustment → Exec InvoiceError InvoiceStore (Unit {0})
unfolding change_invoice
apply_adjustment a s =
    change_invoice a.invoice_id
      (λ x. record x { total_minor_units = x.total_minor_units +ℤ a.amount_minor_units })
      (record s { adjustments = s.adjustments ++ a ∷ [] })

pub adjustments_for : ℕ → InvoiceStore → List InvoiceAdjustment
adjustments_for i s = filter_by (λ a. a.invoice_id == i) s.adjustments

abbrev pub in_period : ℕ → ℕ → SessionRecord → Bool
in_period start end x = leb start x.timestamp && ltb x.timestamp end

abbrev pub amount_of : SessionRecord → ℤ
amount_of x = x.amount_minor_units

-- the sum over the sessions of the period
pub period_total : ℕ → ℕ → List SessionRecord → ℤ
period_total start end sessions = sum_ℤ (map amount_of (filter_by (in_period start end) sessions))

pub generate_for_period :
    ℕ → ℕ → ℕ → ℕ → ℕ → List SessionRecord → Option ℕ → InvoiceStore → Invoice × InvoiceStore
unfolding create period_total
generate_for_period new_id tenant account start end sessions due_at s =
    create new_id tenant account start end (period_total start end sessions) due_at s

pub issue : ℕ → Exec InvoiceError InvoiceStore (Unit {0})
unfolding update_status
issue i = update_status i issued

abbrev pub is_draft : InvoiceStatus → Bool
is_draft draft = true
is_draft _ = false

abbrev pub is_issued : InvoiceStatus → Bool
is_issued issued = true
is_issued _ = false

pub edit_draft : ℕ → ℤ → Exec InvoiceError InvoiceStore (Unit {0})
unfolding set_total
edit_draft i total s = elim (get i s) [
  | none ↦ (err not_found, s)
  | some x ↦ if is_draft x.status then set_total i total s else (err immutable, s)
]

-- `apply_credit_note`; the new adjustment's id is the first argument
pub apply_credit_note : ℕ → ℕ → ℤ → ℕ → Exec InvoiceError InvoiceStore InvoiceAdjustment
unfolding apply_adjustment
apply_credit_note new_id i amount reason s = elim (get i s) [
  | none ↦ (err not_found, s)
  | some x ↦
      let a : InvoiceAdjustment = record {
        id = new_id;
        invoice_id = i;
        amount_minor_units = amount;
        reason = reason;
      } in
      (apply_adjustment a >> pure a) s
]

-- `invoice.due_at is not None and now > invoice.due_at`
abbrev pub past_due : Option ℕ → ℕ → Bool
past_due none now = false
past_due (some due) now = ltb due now

pub mark_overdue_if_past_due : ℕ → ℕ → Exec InvoiceError InvoiceStore (Unit {0})
unfolding update_status
mark_overdue_if_past_due i now s = elim (get i s) [
  | none ↦ (err not_found, s)
  | some x ↦
      if is_issued x.status && past_due x.due_at now then update_status i overdue s else (ok tt, s)
]
