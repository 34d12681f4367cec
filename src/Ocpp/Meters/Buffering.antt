-- ===== src/Ocpp/Meters/Buffering.antt =====
-- The buffer loses no row, keeps the order, and bounds what waits.
use evaggregator.Ocpp.Meters.{
  MeterReading, MeterValueBuffer, add, all_rows, all_written_rows, enqueue, flush, is_empty,
  should_flush,
}
use evaggregator.Base.{
  All, All-append, Bool-cases, List, [], ap, arith, false, inl, inr, length, length-append, refl,
  sym, true, ℕ, ◌++◌, ◌<◌, ◌∙◌, ◌∷◌, ◌≡◌, ◌≤◌,
}
use mathlib.Core.List.{append-nil, append_assoc}

-- A row with the two readings of the clock, or an explicit flush.
pub data Command : Type 0 where
  add_row : MeterReading → ℕ → ℕ → Command
  flush_now : Command

abbrev pub run_one : Command → MeterValueBuffer → MeterValueBuffer
run_one (add_row r opened checked) b = add r opened checked b
run_one flush_now b = flush b

abbrev pub run : List Command → MeterValueBuffer → MeterValueBuffer
run [] b = b
run (c ∷ cs) b = run cs (run_one c b)

abbrev pub added : List Command → List MeterReading
added [] = []
added (add_row r opened checked ∷ cs) = r ∷ added cs
added (flush_now ∷ cs) = added cs

-- what was written, and then what waits
abbrev pub contents : MeterValueBuffer → List MeterReading
contents b = all_rows b.batches ++ b.buffer

all_rows-append :
    (bs : List (List MeterReading)) (b : List MeterReading)
    → all_rows (bs ++ b ∷ []) ≡ all_rows bs ++ b
all_rows-append [] b = append-nil b
all_rows-append (c ∷ bs) b = rw (all_rows-append bs b) (sym (append_assoc c (all_rows bs) b))

pub contents-flush : (b : MeterValueBuffer) → contents (flush b) ≡ contents b
unfolding flush
contents-flush b = elim (Bool-cases (is_empty b.buffer)) [
  | inl e ↦ rw e
  | inr e ↦ rw e (append-nil _ ∙ all_rows-append b.batches b.buffer)
]

pub contents-add :
    (r : MeterReading) (opened checked : ℕ) (b : MeterValueBuffer)
    → contents (add r opened checked b) ≡ contents b ++ r ∷ []
unfolding add
contents-add r opened checked b = elim (Bool-cases (should_flush checked (enqueue r opened b))) [
  | inl e ↦ rw (e, add) (contents-flush (enqueue r opened b) ∙ sym (append_assoc _ b.buffer _))
  | inr e ↦ rw (e, add) (sym (append_assoc _ b.buffer _))
]

-- Under any sequence of rows and flushes, at whatever times, what has been written followed by what
-- waits is what was there before followed by the rows in the order they came: none is lost, written
-- twice or moved.
pub run_keeps_rows :
    (cs : List Command) (b : MeterValueBuffer) → contents (run cs b) ≡ contents b ++ added cs
run_keeps_rows [] b = sym (append-nil _)
run_keeps_rows (add_row r opened checked ∷ cs) b =
    run_keeps_rows cs (add r opened checked b)
    ∙ ap (λ l. l ++ added cs) (contents-add r opened checked b)
    ∙ append_assoc (contents b) (r ∷ []) (added cs)
run_keeps_rows (flush_now ∷ cs) b =
    run_keeps_rows cs (flush b) ∙ ap (λ l. l ++ added cs) (contents-flush b)

empty_buffer : (rows : List MeterReading) → is_empty rows ≡ true → rows ≡ []
empty_buffer [] e = refl
empty_buffer (r ∷ rows) e = cc

-- A flush writes all that waits.
pub flush_writes :
    (b : MeterValueBuffer)
    → ((flush b).buffer ≡ []) × (all_written_rows (flush b) ≡ all_written_rows b ++ b.buffer)
unfolding flush all_written_rows
flush_writes b = elim (Bool-cases (is_empty b.buffer)) [
  | inl e ↦
      rw (e, flush)
        (
          empty_buffer b.buffer e,
          rw (empty_buffer b.buffer e) (sym (append-nil (all_rows b.batches))),
        )
  | inr e ↦ rw (e, flush) (refl, all_rows-append b.batches b.buffer)
]

-- Fewer rows wait than make a batch, and no batch is larger than that or empty.
pub record IsBounded (b : MeterValueBuffer) : Type 0 where
  pub positive : 0 < b.max_batch_size
  pub waiting : length b.buffer < b.max_batch_size
  pub written : All (λ rows. (0 < length rows) × (length rows ≤ b.max_batch_size)) b.batches

nonempty_length : (rows : List MeterReading) → is_empty rows ≡ false → 0 < length rows
nonempty_length [] e = cc
nonempty_length (r ∷ rows) e = omega arith

flush-IsBounded :
    (b : MeterValueBuffer)
    → 0 < b.max_batch_size
    → length b.buffer ≤ b.max_batch_size
    → All (λ rows. (0 < length rows) × (length rows ≤ b.max_batch_size)) b.batches
    → IsBounded (flush b)
unfolding flush
flush-IsBounded b p w a = elim (Bool-cases (is_empty b.buffer)) [
  | inl e ↦
      rw (e, flush) (record { positive = p; waiting = rw (empty_buffer b.buffer e) p; written = a })
  | inr e ↦
      rw (e, flush)
        (record {
          positive = p;
          waiting = p;
          written =
              All-append (λ rows. (0 < length rows) × (length rows ≤ b.max_batch_size)) b.batches
                (b.buffer ∷ []) a ((nonempty_length b.buffer e, w), tt);
        })
]

add-IsBounded :
    (r : MeterReading) (opened checked : ℕ) (b : MeterValueBuffer)
    → IsBounded b
    → IsBounded (add r opened checked b)
unfolding add enqueue should_flush
add-IsBounded r opened checked b h =
    let grown = length-append b.buffer (r ∷ []) in
    elim (Bool-cases (should_flush checked (enqueue r opened b))) [
      | inl e ↦
          rw (e, add)
            (flush-IsBounded (enqueue r opened b) h.positive (omega (arith, grown, h.waiting))
              h.written)
      | inr e ↦
          rw (e, add)
            (record { positive = h.positive; waiting = ground (arith, e); written = h.written })
    ]

-- Every row and every flush keeps the bounds.
pub run-IsBounded : (cs : List Command) (b : MeterValueBuffer) → IsBounded b → IsBounded (run cs b)
run-IsBounded [] b h = h
run-IsBounded (add_row r opened checked ∷ cs) b h =
    run-IsBounded cs (add r opened checked b) (add-IsBounded r opened checked b h)
run-IsBounded (flush_now ∷ cs) b h =
    run-IsBounded cs (flush b) (flush-IsBounded b h.positive (omega arith) h.written)
