-- ===== src/Billing/Invoices/Immutable.antt =====
-- After a draft is issued its total changes only by credit notes.
use evaggregator.Billing.Invoices.{
  Invoice, InvoiceAdjustment, InvoiceError, InvoiceStatus, InvoiceStore, SessionRecord,
  adjustments_for, apply_adjustment, apply_credit_note, change_invoice, create, edit_draft,
  generate_for_period, get, is_draft, is_issued, issue, issued, mark_overdue_if_past_due, overdue,
  past_due, set_total, update_status,
}
use evaggregator.Base.{
  Bool-cases, Exec, List, Option, Option-cases, [], ap, arith, false, filter_by, filter_by-append,
  if◌then◌else◌, inl, inr, map, nat_eq, none, pure, refl, some, subst, sym, ℕ, ◌&&◌, ◌++◌, ◌==◌,
  ◌>>=◌, ◌∙◌, ◌∷◌, ◌≡◌,
}
use evaggregator.Base.Int.{+ℤ-zero, int_laws, neg_part, pos_part, sum_ℤ, sum_ℤ-append, ℤ, ◌+ℤ◌}
use evaggregator.Base.Dict.{lookup-insert}
use mathlib.Core.List.{map-append}

-- What can happen to the store. The ids of new invoices are unused.
pub data Step (s : InvoiceStore) : InvoiceStore → Type 0 where
  generated :
      (new_id tenant account start end : ℕ) (sessions : List SessionRecord) (due_at : Option ℕ)
      → get new_id s ≡ none
      → Step s (generate_for_period new_id tenant account start end sessions due_at s).1
  issued_one : (i : ℕ) → Step s (issue i s).1
  edited : (i : ℕ) (total : ℤ) → Step s (edit_draft i total s).1
  credited :
      (new_id i : ℕ) (amount : ℤ) (reason : ℕ)
      → Step s (apply_credit_note new_id i amount reason s).1
  swept : (i now : ℕ) → Step s (mark_overdue_if_past_due i now s).1

pub data Run (s : InvoiceStore) : InvoiceStore → Type 0 where
  here : Run s s
  next : {t u : InvoiceStore} → Run s t → Step t u → Run s u

abbrev pub delta_of : InvoiceAdjustment → ℤ
delta_of a = a.amount_minor_units

-- the sum of the credit notes of an invoice
abbrev pub credits : ℕ → InvoiceStore → ℤ
credits i s = sum_ℤ (map delta_of (adjustments_for i s))

-- In `s` the invoice `i` is past being a draft, it still bills the account and the period of `x`,
-- and its total is that of `x` and the credit notes given since `base`.
pub record Follows (i : ℕ) (x : Invoice) (base : ℤ) (s : InvoiceStore) : Type 0 where
  pub invoice : Invoice
  pub found : get i s ≡ some invoice
  pub final : is_draft invoice.status ≡ false
  pub account : invoice.account_id ≡ x.account_id
  pub starts : invoice.period_start ≡ x.period_start
  pub ends : invoice.period_end ≡ x.period_end
  pub billed : invoice.total_minor_units +ℤ base ≡ x.total_minor_units +ℤ credits i s

get-change_invoice :
    (i j : ℕ) (f : Invoice → Invoice) (s : InvoiceStore)
    → get i (change_invoice j f s).1
      ≡ (if j == i then elim (get i s) [ none ↦ none | some x ↦ some (f x) ] else get i s)
unfolding change_invoice
get-change_invoice i j f s = elim (Option-cases (get j s)) [
  | inl e ↦ ground arith
  | inr (y, e) ↦ ground (arith, lookup-insert j i (f y) s.invoices)
]

adjustments-change_invoice :
    (j : ℕ) (f : Invoice → Invoice) (s : InvoiceStore)
    → (change_invoice j f s).1.adjustments ≡ s.adjustments
unfolding change_invoice
adjustments-change_invoice j f s = ground arith

-- A change that keeps the account, the period and the total, and makes no draft.
pub record KeepsBill (f : Invoice → Invoice) : Type 0 where
  pub final : (y : Invoice) → is_draft (f y).status ≡ false
  pub account : (y : Invoice) → (f y).account_id ≡ y.account_id
  pub starts : (y : Invoice) → (f y).period_start ≡ y.period_start
  pub ends : (y : Invoice) → (f y).period_end ≡ y.period_end
  pub total : (y : Invoice) → (f y).total_minor_units ≡ y.total_minor_units

credits_eq :
    (i : ℕ) (s t : InvoiceStore) → s.adjustments ≡ t.adjustments → credits i s ≡ credits i t
unfolding adjustments_for
credits_eq i s t e = ap (λ l. sum_ℤ (map delta_of (filter_by (λ a. a.invoice_id == i) l))) e

change-Follows :
    (i j : ℕ) (x : Invoice) (base : ℤ) (f : Invoice → Invoice) (s : InvoiceStore)
    → KeepsBill f
    → Follows i x base s
    → Follows i x base (change_invoice j f s).1
change-Follows i j x base f s keep h =
    let y = h.invoice in
    let read = get-change_invoice i j f s in
    let same = credits_eq i (change_invoice j f s).1 s (adjustments-change_invoice j f s) in
    elim (Bool-cases (j == i)) [
      | inl e ↦ record {
        invoice = f y;
        found = ground (arith, read, h.found);
        final = keep.final y;
        account = keep.account y ∙ h.account;
        starts = keep.starts y ∙ h.starts;
        ends = keep.ends y ∙ h.ends;
        billed = rw (keep.total y, same) h.billed;
      }
      | inr e ↦ record {
        invoice = y;
        found = ground (arith, read, h.found);
        final = h.final;
        account = h.account;
        starts = h.starts;
        ends = h.ends;
        billed = rw same h.billed;
      }
    ]

status-KeepsBill :
    (t : InvoiceStatus) → is_draft t ≡ false → KeepsBill (λ x. record x { status = t })
status-KeepsBill t h = record {
  final = λ y. h;
  account = λ y. refl;
  starts = λ y. refl;
  ends = λ y. refl;
  total = λ y. refl;
}

-- A change of another invoice.
other-Follows :
    (i : ℕ) (x : Invoice) (base : ℤ) (s t : InvoiceStore)
    → get i t ≡ get i s
    → t.adjustments ≡ s.adjustments
    → Follows i x base s
    → Follows i x base t
other-Follows i x base s t g a h = record {
  invoice = h.invoice;
  found = g ∙ h.found;
  final = h.final;
  account = h.account;
  starts = h.starts;
  ends = h.ends;
  billed = rw (credits_eq i t s a) h.billed;
}

generate-Follows :
    (i : ℕ) (x : Invoice) (base : ℤ) (s : InvoiceStore) (n tenant account start end : ℕ)
    (sessions : List SessionRecord) (due_at : Option ℕ)
    → get n s ≡ none
    → Follows i x base s
    → Follows i x base (generate_for_period n tenant account start end sessions due_at s).1
unfolding generate_for_period create
generate-Follows i x base s n tenant account start end sessions due_at fresh h =
    let (made, t) = generate_for_period n tenant account start end sessions due_at s in
    other-Follows i x base s t (ground (arith, lookup-insert n i made s.invoices, h.found)) refl h

add_both : (a b c d e : ℤ) → a +ℤ b ≡ c +ℤ d → a +ℤ e +ℤ b ≡ c +ℤ (d +ℤ e)
add_both a b c d e h = omega (int_laws, ap pos_part h, ap neg_part h)

edit-Follows :
    (i j : ℕ) (x : Invoice) (base total : ℤ) (s : InvoiceStore)
    → Follows i x base s
    → Follows i x base (edit_draft j total s).1
unfolding edit_draft set_total
edit-Follows i j x base total s h = elim (Option-cases (get j s)) [
  | inl e ↦ rw (e, edit_draft) h
  | inr (y, e) ↦ elim (Bool-cases (is_draft y.status)) [
    | inr n ↦ rw (e, n, edit_draft) h
    | inl d ↦
        let f = λ (z : Invoice). record z { total_minor_units = total } in
        let apart : (j == i) ≡ false = ground (arith, h.found, h.final) in
        rw (e, d, edit_draft)
          (other-Follows i x base s (change_invoice j f s).1 (get-change_invoice i j f s ∙ rw apart)
            (adjustments-change_invoice j f s) h)
  ]
]

credits-append :
    (i : ℕ) (a : InvoiceAdjustment) (s : InvoiceStore)
    → credits i (record s { adjustments = s.adjustments ++ a ∷ [] })
      ≡ (if a.invoice_id == i then credits i s +ℤ a.amount_minor_units else credits i s)
unfolding adjustments_for
credits-append i a s = elim (Bool-cases (a.invoice_id == i)) [
  | inl e ↦
      simp (filter_by-append, map-append, sum_ℤ-append, e)
        (ap (λ t. credits i s +ℤ t) (+ℤ-zero a.amount_minor_units))
  | inr n ↦ simp (filter_by-append, map-append, sum_ℤ-append, n) (+ℤ-zero _)
]

adjust-Follows :
    (i : ℕ) (x : Invoice) (base : ℤ) (a : InvoiceAdjustment) (s : InvoiceStore)
    → Follows i x base s
    → Follows i x base (apply_adjustment a s).1
unfolding apply_adjustment
adjust-Follows i x base a s h =
    let y = h.invoice in
    let f = λ (z : Invoice). record z {
      total_minor_units = z.total_minor_units +ℤ a.amount_minor_units;
    } in
    let s₁ : InvoiceStore = record s { adjustments = s.adjustments ++ a ∷ [] } in
    let t = (change_invoice a.invoice_id f s₁).1 in
    let read = get-change_invoice i a.invoice_id f s₁ in
    let same = credits_eq i t s₁ (adjustments-change_invoice a.invoice_id f s₁) in
    let more = credits-append i a s in
    elim (Bool-cases (a.invoice_id == i)) [
      | inl e ↦ record {
        invoice = f y;
        found = ground (arith, read, h.found);
        final = h.final;
        account = h.account;
        starts = h.starts;
        ends = h.ends;
        billed =
            let grown : credits i t ≡ credits i s +ℤ a.amount_minor_units = same ∙ more ∙ rw e in
            rw grown (add_both _ _ _ _ a.amount_minor_units h.billed);
      }
      | inr e ↦ record {
        invoice = y;
        found = ground (arith, read, h.found);
        final = h.final;
        account = h.account;
        starts = h.starts;
        ends = h.ends;
        billed = let kept : credits i t ≡ credits i s = same ∙ more ∙ rw e in rw kept h.billed;
      }
    ]

state-pure :
    {A B : Type 0} (m : Exec InvoiceError InvoiceStore A) (b : B) (s : InvoiceStore)
    → ((m >>= λ _. pure b) s).1 ≡ (m s).1
state-pure m b s = ground arith

credit-Follows :
    (i j : ℕ) (x : Invoice) (base amount : ℤ) (n reason : ℕ) (s : InvoiceStore)
    → Follows i x base s
    → Follows i x base (apply_credit_note n j amount reason s).1
unfolding apply_credit_note
credit-Follows i j x base amount n reason s h = elim (Option-cases (get j s)) [
  | inl e ↦ rw (e, apply_credit_note) h
  | inr (y, e) ↦
      let a : InvoiceAdjustment = record {
        id = n;
        invoice_id = j;
        amount_minor_units = amount;
        reason = reason;
      } in
      let kept = adjust-Follows i x base a s h in
      rw (e, apply_credit_note)
        (subst (Follows i x base) (sym (state-pure (apply_adjustment a) a s)) kept)
]

sweep-Follows :
    (i j : ℕ) (x : Invoice) (base : ℤ) (now : ℕ) (s : InvoiceStore)
    → Follows i x base s
    → Follows i x base (mark_overdue_if_past_due j now s).1
unfolding mark_overdue_if_past_due update_status
sweep-Follows i j x base now s h = elim (Option-cases (get j s)) [
  | inl e ↦ rw (e, mark_overdue_if_past_due) h
  | inr (y, e) ↦ elim (Bool-cases (is_issued y.status && past_due y.due_at now)) [
    | inr n ↦ rw (e, n, mark_overdue_if_past_due) h
    | inl d ↦
        rw (e, d, mark_overdue_if_past_due)
          (change-Follows i j x base (λ z. record z { status = overdue }) s
            (status-KeepsBill overdue refl) h)
  ]
]

Step-Follows :
    (i : ℕ) (x : Invoice) (base : ℤ) {s u : InvoiceStore}
    → Step s u
    → Follows i x base s
    → Follows i x base u
unfolding issue update_status
Step-Follows i x base {s} (generated n tenant account start end sessions due_at fresh) h =
    generate-Follows i x base s n tenant account start end sessions due_at fresh h
Step-Follows i x base {s} (issued_one j) h =
    change-Follows i j x base (λ y. record y { status = issued }) s (status-KeepsBill issued refl) h
Step-Follows i x base {s} (edited j total) h = edit-Follows i j x base total s h
Step-Follows i x base {s} (credited n j amount reason) h =
    credit-Follows i j x base amount n reason s h
Step-Follows i x base {s} (swept j now) h = sweep-Follows i j x base now s h

Run-Follows :
    (i : ℕ) (x : Invoice) (base : ℤ) {s u : InvoiceStore}
    → Run s u
    → Follows i x base s
    → Follows i x base u
Run-Follows i x base here h = h
Run-Follows i x base (next r st) h = Step-Follows i x base st (Run-Follows i x base r h)

-- Once an invoice is no draft it stays so, and it keeps its account and its period, whatever is
-- generated, issued, edited, credited or swept afterwards; and its total moves by exactly the credit
-- notes that are recorded for it, while attempts to edit it directly change nothing.
pub total_only_by_credits :
    (i : ℕ) (x : Invoice) {s u : InvoiceStore}
    → get i s ≡ some x
    → is_draft x.status ≡ false
    → Run s u
    → Follows i x (credits i s) u
total_only_by_credits i x {s} e d r = Run-Follows i x (credits i s) r (record {
  invoice = x;
  found = e;
  final = d;
  account = refl;
  starts = refl;
  ends = refl;
  billed = refl;
})
