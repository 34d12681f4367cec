-- ===== src/Ocpp/Transport/Examples.antt =====
-- A node with a connection of charger 7, over bodies that are sent as they are.
use evaggregator.Ocpp.Calls.{RemoteCallError}
use evaggregator.Ocpp.Commands.{accepted}
use evaggregator.Ocpp.Transport.{Json, ReplyBody, RequestBody, charger_result, send, serve_command}
use evaggregator.Ocpp.Transport.Delivery.{command-delivered, delivering}
use evaggregator.Base.{Option, Result, [], inl, inr, none, ok, refl, some, ℕ, ◌∷◌, ◌≡◌, ◌⊎◌}

abbrev Body : Type 0
Body = RequestBody ⊎ ReplyBody

abbrev request_of : Body → Option RequestBody
request_of (inl b) = some b
request_of (inr b) = none

abbrev reply_of : Body → Option ReplyBody
reply_of (inl b) = none
reply_of (inr b) = some b

abbrev plain : Json Body
plain = record {
  request_bytes = λ b. inl b;
  read_request = request_of;
  reply_bytes = λ b. inr b;
  read_reply = reply_of;
}

abbrev echo : ℕ → ℕ → ℕ → Option (Result RemoteCallError ℕ)
echo connection kind payload = some (ok payload)

command-delivered_example :
    send plain
      (some (delivering (serve_command plain (λ charger. charger) echo ((7, 2) ∷ []))))
      5
      7
      1
      3
      40
    ≡ ok (record { status = accepted; result = some (charger_result 40) })
command-delivered_example =
    command-delivered plain (λ charger. charger) echo ((7, 2) ∷ []) 5 7 1 3 40
      (record { request_back = λ b. refl; reply_back = λ b. refl })
