-- ===== src/Ocpp/Calls/Waiting.antt =====
-- An outgoing call ends with the first answer to it, and leaves nothing behind.
use evaggregator.Ocpp.Calls.{
  Future, LiveConnection, RemoteCallError, awaited, begin_call, call_rejected, call_timed_out, done,
  finish_call, pending, reject, resolve, settle_future,
}
use evaggregator.Base.{
  Bool, Bool-cases, List, Option, Result, [], arith, err, false, if◌then◌else◌, inl, inr, nat_eq,
  none, ok, refl, some, ℕ, ◌==◌, ◌∷◌, ◌≡◌,
}
use evaggregator.Base.Dict.{beq_refl, lookup, lookup-erase, lookup-insert, lookup-insert_self}

-- An answer that the charger sends to a call.
pub data CallAnswer : Type 0 where
  result_of : ℕ → ℕ → CallAnswer
  error_of : ℕ → ℕ → ℕ → CallAnswer

abbrev pub answered_id : CallAnswer → ℕ
answered_id (result_of u r) = u
answered_id (error_of u c d) = u

abbrev pub outcome_of : CallAnswer → Result RemoteCallError ℕ
outcome_of (result_of u r) = ok r
outcome_of (error_of u c d) = err (call_rejected c d)

pub take_answer : CallAnswer → LiveConnection → Bool × LiveConnection
unfolding resolve reject
take_answer (result_of u r) c = resolve u r c
take_answer (error_of u code d) c = reject u code d c

pub take_answers : List CallAnswer → LiveConnection → LiveConnection
unfolding take_answer
take_answers [] c = c
take_answers (a ∷ answers) c = take_answers answers (take_answer a c).1

-- The first answer to a call in a list of answers.
abbrev pub first_answer : ℕ → List CallAnswer → Result RemoteCallError ℕ
first_answer u [] = err call_timed_out
first_answer u (a ∷ answers) =
    let rest = first_answer u answers in if answered_id a == u then outcome_of a else rest

-- What an answer makes of the future of its call.
abbrev settled : Result RemoteCallError ℕ → Option Future → Option Future
settled r none = none
settled r (some pending) = some (done r)
settled r (some (done r')) = some (done r')

settle_future-lookup :
    (v u : ℕ) (r : Result RemoteCallError ℕ) (o : Option Future) (c : LiveConnection)
    → lookup v c.calls ≡ o
    → lookup u (settle_future v r o c).1.calls ≡ (if v == u then settled r o else lookup u c.calls)
settle_future-lookup v u r none c h = ground (arith, h)
settle_future-lookup v u r (some pending) c h =
    ground (arith, h, lookup-insert v u (done r) c.calls)
settle_future-lookup v u r (some (done r')) c h = ground (arith, h)

answer-lookup :
    (a : CallAnswer) (u : ℕ) (c : LiveConnection)
    → lookup u (take_answer a c).1.calls
      ≡ (if answered_id a == u then settled (outcome_of a) (lookup u c.calls) else lookup u c.calls)
unfolding take_answer resolve reject
answer-lookup (result_of v r) u c =
    ground (arith, settle_future-lookup v u (ok r) (lookup v c.calls) c refl)
answer-lookup (error_of v code d) u c =
    ground (arith, settle_future-lookup v u (err (call_rejected code d)) (lookup v c.calls) c refl)

done-stays :
    (answers : List CallAnswer) (u : ℕ) (r : Result RemoteCallError ℕ) (c : LiveConnection)
    → lookup u c.calls ≡ some (done r)
    → lookup u (take_answers answers c).calls ≡ some (done r)
unfolding take_answers
done-stays [] u r c h = h
done-stays (a ∷ answers) u r c h =
    done-stays answers u r (take_answer a c).1 (ground (arith, answer-lookup a u c, h))

pending-first :
    (answers : List CallAnswer) (u : ℕ) (c : LiveConnection)
    → lookup u c.calls ≡ some pending
    → awaited (lookup u (take_answers answers c).calls) ≡ first_answer u answers
unfolding take_answers
pending-first [] u c h = rw (h) refl
pending-first (a ∷ answers) u c h = elim (Bool-cases (answered_id a == u)) [
  | inl e ↦
      rw
        (done-stays answers u (outcome_of a) (take_answer a c).1
          (ground (arith, e, answer-lookup a u c, h)))
        (ground (arith, e))
  | inr e ↦
      rw (pending-first answers u (take_answer a c).1 (ground (arith, e, answer-lookup a u c, h)))
        (ground (arith, e))
]

absent-answer :
    (a : CallAnswer) (c : LiveConnection)
    → lookup (answered_id a) c.calls ≡ none
    → take_answer a c ≡ (false, c)
unfolding take_answer resolve reject
absent-answer (result_of v r) c h = rw (h, take_answer, resolve) refl
absent-answer (error_of v code d) c h = rw (h, take_answer, reject) refl

forgotten : (u : ℕ) (c : LiveConnection) → lookup u (finish_call u c).1.calls ≡ none
unfolding finish_call
forgotten u c = ground (arith, lookup-erase u u c.calls, beq_refl u)

-- A call whose unique id is new returns the first of the answers to it that arrive before its time is
-- over, whatever else arrives on the connection, and times out if there is none. Once it is over, its
-- id is forgotten: an answer that comes later finds no call.
pub call_gets_first_answer :
    (u : ℕ) (answers : List CallAnswer) (late : CallAnswer) (c : LiveConnection)
    → answered_id late ≡ u
    → let waiting = take_answers answers (begin_call u c) in
      ((finish_call u waiting).0 ≡ first_answer u answers)
      × (take_answer late (finish_call u waiting).1 ≡ (false, (finish_call u waiting).1))
unfolding begin_call finish_call take_answer
call_gets_first_answer u answers late c same = (
  pending-first answers u (begin_call u c) (lookup-insert_self u pending c.calls),
  absent-answer late (finish_call u (take_answers answers (begin_call u c))).1
      (rw (same) (forgotten u (take_answers answers (begin_call u c)))),
)
