-- ===== src/Ocpp/Socket/Outcomes.antt =====
-- What one received frame leads to.
use evaggregator.Ocpp.Socket.{
  InboundCall, Node, Received, Sent, Turn, action_frame, answer_frame, call, call_error,
  call_result, formation_violation, go_on, handle_answer, handled, heartbeat, heartbeat_result,
  is_value_error, malformed, not_a_call, not_json, not_supported, protocol_error, receive,
  torn_down, unhashable_answer, unreadable_payload, write, wrong_shape, wrong_value,
}
use evaggregator.Ocpp.Handlers.{
  Frame, FrameError, Gateway, Origin, Reply, authorize_request, boot_notification,
  data_transfer_frame, diagnostics_status_frame, firmware_status_frame, handle_firmware_status,
  handle_frame, handle_stop_transaction, log_status_frame, meter_values_frame, other_action,
  report_firmware, security_event_frame, start_request, status_notification, stop_request,
}
use evaggregator.Ocpp.Presence.{handle_inbound_frame}
use evaggregator.Ocpp.Authorization.{AuthStatus}
use evaggregator.Ocpp.Transactions.{
  StopRequest, TransactionRecord, TransactionRepository, stop_known, stop_transaction,
}
use evaggregator.Base.{
  Bool, Bool-cases, List, Option, Option-cases, Result, Result-cases, [], arith, err, false, inl,
  inr, map, nat_eq, none, not, ok, refl, some, subst, sym, true, ℕ, ◌++◌, ◌∷◌, ◌≡◌, ◌⊎◌,
}
use evaggregator.Base.Dict.{lookup}
use mathlib.Core.List.{append-nil, map-append}

-- The id that a written frame answers.
abbrev pub reply_id : Sent → Option ℕ
reply_id (call_result u r) = some u
reply_id (heartbeat_result u now) = some u
reply_id (call_error u code) = u

-- The ids that the answers to a received frame have to carry.
abbrev pub expected : Received → List (Option ℕ)
expected not_json = []
expected malformed = none ∷ []
expected (answer_frame a) = []
expected unhashable_answer = []
expected not_a_call = none ∷ []
expected (call u action) = some u ∷ []

abbrev pub expected_all : List (Origin × Received) → List (Option ℕ)
expected_all [] = []
expected_all ((o, x) ∷ xs) = expected x ++ expected_all xs

abbrev is_unknown : Option TransactionRecord → Bool
is_unknown none = true
is_unknown (some r) = false

abbrev frame_stops : Frame → TransactionRepository → Bool
frame_stops (stop_request q) t = is_unknown (lookup q.transaction_id t.records)
frame_stops (boot_notification v m f) t = false
frame_stops (status_notification c s e) t = false
frame_stops (authorize_request tag) t = false
frame_stops (start_request f) t = false
frame_stops (meter_values_frame x ts xs) t = false
frame_stops (data_transfer_frame v m d) t = false
frame_stops (firmware_status_frame s) t = false
frame_stops (diagnostics_status_frame s) t = false
frame_stops (security_event_frame kind at info) t = false
frame_stops (log_status_frame s request) t = false
frame_stops (other_action a) t = false

abbrev call_raises : InboundCall → TransactionRepository → Bool
call_raises heartbeat t = false
call_raises (action_frame f) t = frame_stops f t
call_raises wrong_value t = false
call_raises wrong_shape t = false
call_raises unreadable_payload t = true

-- Whether a frame leads to an exception that the loop does not catch: it is no JSON, its id is no key,
-- its payload cannot be read, or it stops a transaction that the gateway does not know.
abbrev pub raises_uncaught : Received → TransactionRepository → Bool
raises_uncaught not_json t = true
raises_uncaught malformed t = false
raises_uncaught (answer_frame a) t = false
raises_uncaught unhashable_answer t = true
raises_uncaught not_a_call t = false
raises_uncaught (call u action) t = call_raises action t

-- An outcome that the loop answers, or an exception that ends it.
abbrev is_answered : Result FrameError Reply → Bool
is_answered (ok r) = true
is_answered (err e) = is_value_error e

module _ {T : Type 0} (roaming_check : ℕ → T → AuthStatus × T) (interval : ℕ) where
  stop-answered :
      (q : StopRequest) (g : Gateway T)
      → is_answered (handle_stop_transaction roaming_check interval q g).0
        ≡ not (is_unknown (lookup q.transaction_id g.transactions.records))
  unfolding handle_stop_transaction stop_transaction stop_known
  stop-answered q g = elim (Option-cases (lookup q.transaction_id g.transactions.records)) [
    | inl e ↦ ground (arith, e)
    | inr (r, e) ↦ ground (arith, e)
  ]

  firmware-answered :
      (o : Origin) (status : ℕ) (g : Gateway T)
      → is_answered (handle_firmware_status roaming_check interval o status g).0 ≡ true
  unfolding handle_firmware_status
  firmware-answered o status g = elim (Option-cases g.firmware) [
    | inl e ↦ rw (e, handle_firmware_status) refl
    | inr (f, e) ↦
        elim (Result-cases (report_firmware roaming_check interval o.charger_id status f)) [
          | inl (x, r) ↦ rw (e, r, handle_firmware_status) refl
          | inr (f', r) ↦ rw (e, r, handle_firmware_status) refl
        ]
  ]

  frame-answered :
      (o : Origin) (f : Frame) (g : Gateway T)
      → is_answered (handle_frame roaming_check interval o f g).0
        ≡ not (frame_stops f g.transactions)
  unfolding handle_frame
  frame-answered o (boot_notification v m f) g = refl
  frame-answered o (status_notification c s e) g = refl
  frame-answered o (authorize_request tag) g = refl
  frame-answered o (start_request f) g = refl
  frame-answered o (stop_request q) g = stop-answered q g
  frame-answered o (meter_values_frame t ts xs) g = refl
  frame-answered o (data_transfer_frame v m d) g = refl
  frame-answered o (firmware_status_frame s) g = firmware-answered o s g
  frame-answered o (diagnostics_status_frame s) g = refl
  frame-answered o (security_event_frame kind at info) g = refl
  frame-answered o (log_status_frame s request) g = refl
  frame-answered o (other_action a) g = refl

  -- What one frame leads to: its answers are written and the loop goes on, or it raises what is not
  -- caught, and the loop ends with nothing written.
  abbrev pub Outcome : Received → Node T → Turn × Node T → Type 0
  Outcome x s (turn, s') =
      ((turn ≡ go_on)
        × (raises_uncaught x s.gateway.transactions ≡ false)
        × (map reply_id s'.written ≡ map reply_id s.written ++ expected x))
      ⊎ ((turn ≡ torn_down)
          × (raises_uncaught x s.gateway.transactions ≡ true)
          × (s'.written ≡ s.written))

  wrote :
      (y : Sent) (s : Node T)
      → map reply_id (write y s).written ≡ map reply_id s.written ++ reply_id y ∷ []
  wrote y s = map-append reply_id s.written (y ∷ [])

  handled-Outcome :
      (u : ℕ) (f : Frame) (s s₀ : Node T) (r : Result FrameError Reply) (g : Gateway T)
      → s.written ≡ s₀.written
      → is_answered r ≡ not (frame_stops f s₀.gateway.transactions)
      → Outcome (call u (action_frame f)) s₀ (handled u s (r, g))
  handled-Outcome u f s s₀ (ok r) g w h = inl (
    refl,
    ground (arith, h),
    subst (λ x. map reply_id (s.written ++ call_result u r ∷ []) ≡ map reply_id x ++ some u ∷ []) w
        (wrote (call_result u r) s),
  )
  handled-Outcome u f s s₀ (err e) g w h = elim (Bool-cases (is_value_error e)) [
    | inl v ↦ rw (v) (
        inl (
          refl,
          ground (arith, h, v),
          subst
              (λ x.
                map reply_id (s.written ++ call_error (some u) not_supported ∷ [])
                ≡ map reply_id x ++ some u ∷ [])
              w (wrote (call_error (some u) not_supported) s),
        ))
    | inr v ↦ rw (v) (inr (refl, ground (arith, h, v), w))
  ]

  pub receive-Outcome :
      (connection : ℕ) (o : Origin) (x : Received) (s : Node T)
      → Outcome x s (receive roaming_check interval connection o x s)
  unfolding receive handle_answer
  receive-Outcome connection o not_json s = inr (refl, refl, refl)
  receive-Outcome connection o malformed s =
      inl (refl, refl, wrote (call_error none protocol_error) s)
  receive-Outcome connection o (answer_frame a) s =
      elim (Option-cases (lookup connection s.connections)) [
        | inl e ↦
            rw (e, handle_answer) (inl (refl, refl, sym (append-nil (map reply_id s.written))))
        | inr (c, e) ↦
            rw (e, handle_answer) (inl (refl, refl, sym (append-nil (map reply_id s.written))))
      ]
  receive-Outcome connection o unhashable_answer s = inr (refl, refl, refl)
  receive-Outcome connection o not_a_call s =
      inl (refl, refl, wrote (call_error none protocol_error) s)
  receive-Outcome connection o (call u heartbeat) s =
      inl (refl, refl, wrote (heartbeat_result u o.now) s)
  receive-Outcome connection o (call u (action_frame f)) s =
      handled-Outcome u f
        (record s { presence = handle_inbound_frame o.charger_id o.now s.presence }) s
        (handle_frame roaming_check interval o f s.gateway).0
        (handle_frame roaming_check interval o f s.gateway).1 refl (frame-answered o f s.gateway)
  receive-Outcome connection o (call u wrong_value) s =
      inl (refl, refl, wrote (call_error (some u) not_supported) s)
  receive-Outcome connection o (call u wrong_shape) s =
      inl (refl, refl, wrote (call_error (some u) formation_violation) s)
  receive-Outcome connection o (call u unreadable_payload) s = inr (refl, refl, refl)
