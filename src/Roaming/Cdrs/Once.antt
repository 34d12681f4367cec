-- ===== src/Roaming/Cdrs/Once.antt =====
-- A session has one charge record, and a partner is sent a record once.
use evaggregator.Roaming.Cdrs.{CdrService, OcpiCdr, generate_cdr, is_pushed, push_cdr}
use evaggregator.Base.{
  Bool-cases, List, Option-cases, [], any_by-append, arith, if◌then◌else◌, inl, inr, nat_eq, refl,
  some, ℕ, ◌&&◌, ◌++◌, ◌+◌, ◌==◌, ◌∷◌, ◌≡◌,
}
use evaggregator.Base.Dict.{lookup, lookup-insert}

abbrev pub count_sent : ℕ → ℕ → List (ℕ × ℕ) → ℕ
count_sent partner cdr [] = 0
count_sent partner cdr ((p, c) ∷ l) =
    (if (p == partner) && (c == cdr) then 1 else 0) + count_sent partner cdr l

-- A stop event of a session with the factory of its record, or a push.
pub data Command : Type 0 where
  stop_event : ℕ → (Unit {0} → OcpiCdr) → Command
  push_event : ℕ → OcpiCdr → Command

abbrev pub run_one : Command → CdrService → CdrService
run_one (stop_event session factory) s = (generate_cdr factory session s).1
run_one (push_event partner cdr) s = push_cdr partner cdr s

abbrev pub run : List Command → CdrService → CdrService
run [] s = s
run (c ∷ cs) s = run cs (run_one c s)

-- What was sent is what is kept against sending it again, and nothing is in it twice.
pub record IsSentOnce (s : CdrService) : Type 0 where
  pub counted :
      (partner cdr : ℕ)
      → count_sent partner cdr s.sent ≡ (if is_pushed partner cdr s.pushed then 1 else 0)

count_sent-append :
    (p c : ℕ) (a b : List (ℕ × ℕ)) → count_sent p c (a ++ b) ≡ count_sent p c a + count_sent p c b
count_sent-append p c [] b = omega arith
count_sent-append p c ((x, y) ∷ a) b = omega (arith, count_sent-append p c a b)

push-IsSentOnce :
    (partner : ℕ) (cdr : OcpiCdr) (s : CdrService)
    → IsSentOnce s
    → IsSentOnce (push_cdr partner cdr s)
unfolding push_cdr
push-IsSentOnce partner cdr s h = elim (Bool-cases (is_pushed partner cdr.id s.pushed)) [
  | inl y ↦ rw (y, push_cdr) h
  | inr n ↦
      rw (n, push_cdr)
        (record {
          counted = λ p c. ground (
            arith,
            h.counted p c,
            h.counted partner cdr.id,
            count_sent-append p c s.sent ((partner, cdr.id) ∷ []),
            any_by-append (λ (k : ℕ × ℕ). (k.0 == p) && (k.1 == c)) s.pushed
                ((partner, cdr.id) ∷ []),
          );
        })
]

generate-IsSentOnce :
    (factory : Unit {0} → OcpiCdr) (session : ℕ) (s : CdrService)
    → IsSentOnce s
    → IsSentOnce (generate_cdr factory session s).1
unfolding generate_cdr
generate-IsSentOnce factory session s h = elim (Option-cases (lookup session s.by_session)) [
  | inl n ↦ rw (n, generate_cdr) (record { counted = h.counted })
  | inr (x, f) ↦ rw (f, generate_cdr) h
]

-- Under any stop events and pushes, repeated ones included, each partner has been sent each record
-- exactly once if it is marked as pushed, and otherwise not at all, provided that this held before, as
-- it does with nothing sent or marked.
pub run-IsSentOnce : (cs : List Command) (s : CdrService) → IsSentOnce s → IsSentOnce (run cs s)
run-IsSentOnce [] s h = h
run-IsSentOnce (stop_event session factory ∷ cs) s h =
    run-IsSentOnce cs (generate_cdr factory session s).1 (generate-IsSentOnce factory session s h)
run-IsSentOnce (push_event partner cdr ∷ cs) s h =
    run-IsSentOnce cs (push_cdr partner cdr s) (push-IsSentOnce partner cdr s h)

push_keeps :
    (partner : ℕ) (cdr : OcpiCdr) (s : CdrService)
    → (push_cdr partner cdr s).by_session ≡ s.by_session
unfolding push_cdr
push_keeps partner cdr s = ground arith

generate_keeps :
    (factory : Unit {0} → OcpiCdr) (other session : ℕ) (s : CdrService) {x : OcpiCdr}
    → lookup session s.by_session ≡ some x
    → lookup session (generate_cdr factory other s).1.by_session ≡ some x
unfolding generate_cdr
generate_keeps factory other session s h = elim (Option-cases (lookup other s.by_session)) [
  | inl n ↦
      rw (n, generate_cdr)
        (ground (arith, lookup-insert other session (factory tt) s.by_session, h))
  | inr (y, f) ↦ rw (f, generate_cdr) h
]

run_keeps :
    (cs : List Command) (session : ℕ) (s : CdrService) {x : OcpiCdr}
    → lookup session s.by_session ≡ some x
    → lookup session (run cs s).by_session ≡ some x
run_keeps [] session s h = h
run_keeps (stop_event other factory ∷ cs) session s h =
    run_keeps cs session (generate_cdr factory other s).1 (generate_keeps factory other session s h)
run_keeps (push_event partner cdr ∷ cs) session s h =
    run_keeps cs session (push_cdr partner cdr s) (rw (push_keeps partner cdr s) h)

-- Once a session has a charge record, a stop event for it returns that record and changes nothing,
-- whatever events and pushes came in between and whatever its factory would make.
pub cdr_immutable :
    (cs : List Command) (factory : Unit {0} → OcpiCdr) (session : ℕ) (s : CdrService) {x : OcpiCdr}
    → lookup session s.by_session ≡ some x
    → generate_cdr factory session (run cs s) ≡ (x, run cs s)
unfolding generate_cdr
cdr_immutable cs factory session s h = rw (run_keeps cs session s h, generate_cdr) refl
