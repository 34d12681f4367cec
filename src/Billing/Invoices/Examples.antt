-- ===== src/Billing/Invoices/Examples.antt =====
-- An issued invoice that an edit is tried on, that is credited, and that then falls overdue.
use evaggregator.Billing.Invoices.{
  Invoice, InvoiceStore, apply_credit_note, edit_draft, get, issued, mark_overdue_if_past_due,
}
use evaggregator.Billing.Invoices.Immutable.{
  Follows, credited, credits, edited, here, next, swept, total_only_by_credits,
}
use evaggregator.Base.{[], refl, some, ◌∷◌, ◌≡◌}
use evaggregator.Base.Int.{negsuc, pos, ◌+ℤ◌}

abbrev invoice : Invoice
invoice = record {
  id = 1;
  tenant_id = 9;
  account_id = 2;
  period_start = 0;
  period_end = 20;
  status = issued;
  total_minor_units = pos 300;
  due_at = some 50;
}

abbrev store : InvoiceStore
store = record { invoices = (1, invoice) ∷ []; adjustments = [] }

abbrev edited_store : InvoiceStore
edited_store = (edit_draft 1 (pos 7) store).1

abbrev credited_store : InvoiceStore
credited_store = (apply_credit_note 5 1 (negsuc 99) 3 edited_store).1

total_only_by_credits_example :
    Follows 1 invoice (credits 1 store) (mark_overdue_if_past_due 1 60 credited_store).1
total_only_by_credits_example =
    total_only_by_credits 1 invoice refl refl
      (next (next (next here (edited 1 (pos 7))) (credited 5 1 (negsuc 99) 3)) (swept 1 60))

credited_total : get 1 credited_store ≡ some (record invoice { total_minor_units = pos 200 })
unfolding edit_draft apply_credit_note ◌+ℤ◌
credited_total = refl
