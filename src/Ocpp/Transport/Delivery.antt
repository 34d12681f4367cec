-- ===== src/Ocpp/Transport/Delivery.antt =====
-- What a sender learns of its command.
use evaggregator.Ocpp.Calls.{
  LiveConnectionRegistry, RemoteCallError, call_rejected, call_timed_out, get_connection,
}
use evaggregator.Ocpp.Commands.{accepted, rejected, timed_out}
use evaggregator.Ocpp.Transport.{
  Json, NatsResponse, ReplyBody, RequestBody, Subject, TransportOutcome, call_live, charger_error,
  charger_result, command_subject, internal_error, not_connected, outcome_of_body, reason,
  reply_for, response, send, serve_command, status_map,
}
use evaggregator.Base.{Option, Result, ap, err, none, ok, refl, some, ℕ, ◌≡◌}

-- Written objects are read back as they were.
pub record IsJson {B : Type 0} (json : Json B) : Type 0 where
  pub request_back : (b : RequestBody) → json.read_request (json.request_bytes b) ≡ some b
  pub reply_back : (b : ReplyBody) → json.read_reply (json.reply_bytes b) ≡ some b

-- What a sender should see: the charger's own answer, its error or its silence, or that the charger is
-- not connected to this node.
abbrev pub seen_by_sender : Option (Option (Result RemoteCallError ℕ)) → TransportOutcome
seen_by_sender none = record { status = rejected; result = some (reason not_connected) }
seen_by_sender (some (some (ok r))) = record { status = accepted; result = some (charger_result r) }
seen_by_sender (some (some (err call_timed_out))) = record { status = timed_out; result = none }
seen_by_sender (some (some (err (call_rejected code description)))) = record {
  status = rejected;
  result = some (charger_error code description);
}
seen_by_sender (some none) = record { status = rejected; result = some (reason internal_error) }

abbrev pub called :
    (ℕ → ℕ → ℕ → Option (Result RemoteCallError ℕ))
    → ℕ
    → ℕ
    → Option ℕ
    → Option (Option (Result RemoteCallError ℕ))
called send_call kind payload none = none
called send_call kind payload (some connection) = some (send_call connection kind payload)

abbrev pub delivering : {B : Type 0} → (Subject → B → B) → Subject → B → NatsResponse B
delivering serve subject request = response (serve subject request)

module _ {B : Type 0} (json : Json B) where
  read-seen :
      (o : Option (Result RemoteCallError ℕ))
      → outcome_of_body json (some (reply_for o)) ≡ seen_by_sender (some o)
  unfolding status_map
  read-seen none = refl
  read-seen (some (ok r)) = refl
  read-seen (some (err call_timed_out)) = refl
  read-seen (some (err (call_rejected code description))) = refl

  live-seen :
      (after_last_dot : ℕ → ℕ) (send_call : ℕ → ℕ → ℕ → Option (Result RemoteCallError ℕ))
      (kind payload : ℕ) (connection : Option ℕ) (b : RequestBody)
      → b.command_type ≡ some kind
      → b.payload ≡ some payload
      → outcome_of_body json (some (call_live json after_last_dot send_call connection b))
        ≡ seen_by_sender (called send_call kind payload connection)
  unfolding status_map
  live-seen after_last_dot send_call kind payload none b k p = refl
  live-seen after_last_dot send_call kind payload (some c) b k p =
      rw (k, p) (read-seen (send_call c kind payload))

  -- A command that NATS delivers to a node comes back as what its charger made of it there: accepted
  -- with the charger's result, rejected with its error, timed out if it stayed silent, and rejected as
  -- not connected if the node has no connection of that charger. The node looks for the part of the
  -- charger's id after its last dot, which is the id itself where it has none.
  pub command-delivered :
      (after_last_dot : ℕ → ℕ) (send_call : ℕ → ℕ → ℕ → Option (Result RemoteCallError ℕ))
      (live : LiveConnectionRegistry) (node charger command_id kind payload : ℕ)
      → IsJson json
      → send json
          (some (delivering (serve_command json after_last_dot send_call live)))
          node
          charger
          command_id
          kind
          payload
        ≡ ok (
            seen_by_sender
              (called send_call kind payload (get_connection (after_last_dot charger) live)))
  unfolding send serve_command command_subject
  command-delivered after_last_dot send_call live node charger command_id kind payload laws =
      let body : RequestBody = record {
        command_id = some command_id;
        command_type = some kind;
        payload = some payload;
      } in
      rw
        (
          laws.request_back body,
          laws.reply_back (
              call_live json after_last_dot send_call (get_connection (after_last_dot charger) live)
                body),
          send,
          serve_command,
          command_subject,
        )
        (ap ok (
          live-seen after_last_dot send_call kind payload
            (get_connection (after_last_dot charger) live) body refl refl))
