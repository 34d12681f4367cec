-- ===== src/Ocpp/Bus/Delivery.antt =====
-- A consumer handles an event once, however often it is delivered.
use evaggregator.Ocpp.Bus.{
  Event, EventConsumer, SeenEventStore, Shared, deliver, has_processed, mark_processed,
}
use evaggregator.Base.{
  Bool, Bool-cases, List, [], any_by-append, arith, false, if◌then◌else◌, inl, inr, leb, nat_eq,
  refl, suc, true, ℕ, ◌&&◌, ◌++◌, ◌+◌, ◌==◌, ◌||◌, ◌∷◌, ◌≡◌, ◌≢◌,
}

abbrev pub count_id : ℕ → List ℕ → ℕ
count_id x [] = 0
count_id x (y ∷ ys) = (if y == x then 1 else 0) + count_id x ys

-- The consumer has handled each event once if it is marked as processed for it, and never if not.
pub record IsExact (c : EventConsumer) (s : Shared) : Type 0 where
  pub once :
      (id : ℕ) → count_id id c.handled_event_ids ≡ (if has_processed c.name id s.seen then 1 else 0)

count_id-append : (x : ℕ) (a b : List ℕ) → count_id x (a ++ b) ≡ count_id x a + count_id x b
count_id-append x [] b = omega arith
count_id-append x (y ∷ a) b = omega (arith, count_id-append x a b)

processed-mark :
    (n m x y : ℕ) (s : SeenEventStore)
    → has_processed n x (mark_processed m y s) ≡ (has_processed n x s || ((m == n) && (y == x)))
unfolding has_processed mark_processed
processed-mark n m x y s =
    ground (arith, any_by-append (λ (k : ℕ × ℕ). (k.0 == n) && (k.1 == x)) s ((m, y) ∷ []))

module _ (handler : ℕ → Event → Bool) where
  own-IsExact :
      (e : Event) (c : EventConsumer) (s : Shared)
      → IsExact c s
      → IsExact (deliver handler e c s).0 (deliver handler e c s).1
  unfolding deliver
  own-IsExact e c s h = elim (Bool-cases (has_processed c.name e.id s.seen)) [
    | inl seen ↦ rw (seen, deliver) h
    | inr new ↦ elim (Bool-cases (handler c.name e)) [
      | inl done ↦
          rw (new, done, deliver)
            (record {
              once = λ id. ground (
                arith,
                h.once id,
                h.once e.id,
                processed-mark c.name c.name id e.id s.seen,
                count_id-append id c.handled_event_ids (e.id ∷ []),
              );
            })
      | inr raised ↦ rw (new, raised, deliver) (record { once = λ id. ground (arith, h.once id) })
    ]
  ]

  other-IsExact :
      (e : Event) (d c : EventConsumer) (s : Shared)
      → d.name ≢ c.name
      → IsExact c s
      → IsExact c (deliver handler e d s).1
  unfolding deliver
  other-IsExact e d c s apart h = elim (Bool-cases (has_processed d.name e.id s.seen)) [
    | inl seen ↦ rw (seen, deliver) h
    | inr new ↦ elim (Bool-cases (handler d.name e)) [
      | inl done ↦
          rw (new, done, deliver)
            (record {
              once = λ id. ground (arith, h.once id, processed-mark c.name d.name id e.id s.seen);
            })
      | inr raised ↦ rw (new, raised, deliver) (record { once = λ id. ground (arith, h.once id) })
    ]
  ]

-- Deliveries to the consumer and to others of other names, each with a handler that may raise.
pub data Deliveries (c : EventConsumer) (s : Shared) : EventConsumer → Shared → Type 0 where
  here : Deliveries c s c s
  own :
      {d : EventConsumer} {t : Shared}
      → Deliveries c s d t
      → (handler : ℕ → Event → Bool) (e : Event)
      → Deliveries c s (deliver handler e d t).0 (deliver handler e d t).1
  other :
      {d : EventConsumer} {t : Shared}
      → Deliveries c s d t
      → (handler : ℕ → Event → Bool) (e : Event) (x : EventConsumer) → x.name ≢ d.name
      → Deliveries c s d (deliver handler e x t).1

-- However often and in whatever order events are delivered to a consumer, redeliveries and
-- deliveries to other consumers included, and whichever of its handler's runs raise: it has handled
-- each event exactly once if the event is marked as processed for it, and otherwise not at all,
-- provided that this held before, as it does with no event handled or marked.
pub handled_exactly_once :
    {c : EventConsumer} {s : Shared} {d : EventConsumer} {t : Shared}
    → Deliveries c s d t
    → IsExact c s
    → IsExact d t
handled_exactly_once here h = h
handled_exactly_once (own {d} {t} r handler e) h =
    own-IsExact handler e d t (handled_exactly_once r h)
handled_exactly_once (other {d} {t} r handler e x apart) h =
    other-IsExact handler e x d t apart (handled_exactly_once r h)

-- An event that a consumer has not processed is processed by the first delivery in which its handler
-- returns, whatever failed before, and that delivery clears the count of its failures; a delivery in
-- which it raises adds one to that count and marks nothing, and alerts exactly if the new count
-- reaches the threshold.
pub deliver-outcome :
    (handler : ℕ → Event → Bool) (e : Event) (c : EventConsumer) (s : Shared)
    → has_processed c.name e.id s.seen ≡ false
    → (handler c.name e ≡ true
        → (has_processed c.name e.id (deliver handler e c s).1.seen ≡ true)
          × ((deliver handler e c s).0.consecutive_failures ≡ 0))
      × (handler c.name e ≡ false
          → ((deliver handler e c s).1.seen ≡ s.seen)
            × ((deliver handler e c s).0.consecutive_failures ≡ suc c.consecutive_failures)
            × ((deliver handler e c s).1.alerts ≡ (
                if leb c.lag_threshold (suc c.consecutive_failures)
                then s.alerts ++ (c.name, suc c.consecutive_failures) ∷ []
                else s.alerts)))
unfolding deliver
deliver-outcome handler e c s new = (
  λ done.
      rw (new, done, deliver) (ground (arith, processed-mark c.name c.name e.id e.id s.seen), refl),
  λ raised. rw (new, raised, deliver) (ground arith, refl, ground arith),
)
