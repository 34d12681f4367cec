-- ===== src/Ocpp/Transport.antt =====
-- backend/src/evagg/ocpp_gateway/nats_command_transport.py: a command's way to the node that holds the
-- charger's connection, and back. NATS and JSON are parameters. What the commands carry as a result
-- is a `Detail` here, the object that is put into the reply.
pub mod Delivery
mod Examples
use evaggregator.Ocpp.Calls.{
  LiveConnectionRegistry, RemoteCallError, call_rejected, call_timed_out, get_connection,
}
use evaggregator.Ocpp.Commands.{CommandStatus, accepted, rejected, timed_out}
use evaggregator.Base.{Option, Result, err, none, ok, some, ℕ}

pub data Reason : Type 0 where
  no_response no_gateway_node malformed_response : Reason
  malformed_request not_connected internal_error : Reason

pub data Detail : Type 0 where
  reason : Reason → Detail
  charger_result : ℕ → Detail
  charger_error : ℕ → ℕ → Detail

-- The texts of the status in a reply, and any other text.
pub data StatusText : Type 0 where
  accepted_text rejected_text timed_out_text : StatusText
  other_text : ℕ → StatusText

-- A reply's body, whose fields may be missing.
pub record ReplyBody : Type 0 where
  pub status : Option StatusText
  pub result : Option Detail

pub record RequestBody : Type 0 where
  pub command_id : Option ℕ
  pub command_type : Option ℕ
  pub payload : Option ℕ

pub record TransportOutcome : Type 0 where
  pub status : CommandStatus
  pub result : Option Detail

-- `json.dumps` with `json.loads`, which is `none` for a text that it refuses.
pub record Json (B : Type 0) : Type 0 where
  pub request_bytes : RequestBody → B
  pub read_request : B → Option RequestBody
  pub reply_bytes : ReplyBody → B
  pub read_reply : B → Option ReplyBody

-- What becomes of a NATS request.
pub data NatsResponse (B : Type 0) : Type 0 where
  timeout_error no_responders : NatsResponse B
  response : B → NatsResponse B

-- `ocpp-cmd.{node_id}.{charger_id}`, by its two ids
abbrev pub Subject : Type 0
Subject = ℕ × ℕ

unfoldable pub command_subject : ℕ → ℕ → Subject
command_subject node charger = (node, charger)

unfoldable pub status_map : Option StatusText → CommandStatus
status_map none = rejected
status_map (some accepted_text) = accepted
status_map (some rejected_text) = rejected
status_map (some timed_out_text) = timed_out
status_map (some (other_text n)) = rejected

pub data SendError : Type 0 where
  not_connected_yet : SendError

abbrev pub refusal : Reason → ReplyBody
refusal r = record { status = some rejected_text; result = some (reason r) }

-- The reply to what `send_call` returns or raises: `none` is any other exception.
abbrev pub reply_for : Option (Result RemoteCallError ℕ) → ReplyBody
reply_for (some (ok r)) = record { status = some accepted_text; result = some (charger_result r) }
reply_for (some (err call_timed_out)) = record { status = some timed_out_text; result = none }
reply_for (some (err (call_rejected code description))) = record {
  status = some rejected_text;
  result = some (charger_error code description);
}
reply_for none = refusal internal_error

abbrev pub or_empty : Option ℕ → ℕ
or_empty none = 0
or_empty (some x) = x

module _ {B : Type 0} (json : Json B) where
  abbrev pub outcome_of_body : Option ReplyBody → TransportOutcome
  outcome_of_body none = record { status = rejected; result = some (reason malformed_response) }
  outcome_of_body (some b) = record { status = status_map b.status; result = b.result }

  abbrev pub outcome_of_response : NatsResponse B → TransportOutcome
  outcome_of_response timeout_error = record {
    status = timed_out;
    result = some (reason no_response);
  }
  outcome_of_response no_responders = record {
    status = rejected;
    result = some (reason no_gateway_node);
  }
  outcome_of_response (response data_bytes) = outcome_of_body (json.read_reply data_bytes)

  -- `NatsCommandTransport.send`, with the connection if there is one, as what it does with a request.
  unfoldable pub send :
      Option (Subject → B → NatsResponse B) → ℕ → ℕ → ℕ → ℕ → ℕ → Result SendError TransportOutcome
  unfolding status_map command_subject
  send none node charger command_id kind payload = err not_connected_yet
  send (some request) node charger command_id kind payload =
      let body : RequestBody = record {
        command_id = some command_id;
        command_type = some kind;
        payload = some payload;
      } in
      ok (outcome_of_response (request (command_subject node charger) (json.request_bytes body)))

  -- `serve_commands`, the callback of a node's subscription: `send_call connection action payload` is
  -- what the live connection makes of the command.
  -- `after_last_dot` is the part of a charger's id after its last dot, which `rsplit` takes.
  module _ (after_last_dot : ℕ → ℕ)
      (send_call : ℕ → ℕ → ℕ → Option (Result RemoteCallError ℕ)) where
    abbrev pub call_live : Option ℕ → RequestBody → ReplyBody
    call_live none b = refusal not_connected
    call_live (some connection) b =
        reply_for (send_call connection (or_empty b.command_type) (or_empty b.payload))

    abbrev pub serve_read : ℕ → LiveConnectionRegistry → Option RequestBody → ReplyBody
    serve_read charger live none = refusal malformed_request
    serve_read charger live (some b) = call_live (get_connection charger live) b

    unfoldable pub serve_command : LiveConnectionRegistry → Subject → B → B
    serve_command live subject request =
        json.reply_bytes (serve_read (after_last_dot subject.1) live (json.read_request request))
