-- ===== src/Ocpp/Handlers/Rows.antt =====
-- No meter value is lost between frames.
use evaggregator.Ocpp.Handlers.{
  Frame, Gateway, Origin, Sample, authorize_request, boot_notification, data_transfer_frame,
  diagnostics_status_frame, firmware_status_frame, handle_frame, handle_stop_transaction,
  log_status_frame, meter_values_frame, other_action, reading_of, security_event_frame,
  start_request, status_notification, stop_request,
}
use evaggregator.Ocpp.Handlers.Stops.{stop-cases}
use evaggregator.Ocpp.Transactions.{StopRequest}
use evaggregator.Ocpp.Meters.{MeterReading, all_written_rows}
use evaggregator.Ocpp.Meters.Buffering.{flush_writes}
use evaggregator.Ocpp.Authorization.{AuthStatus}
use evaggregator.Base.{List, [], inl, inr, ℕ, ◌++◌, ◌∷◌, ◌≡◌}

abbrev pub readings_of : Origin → ℕ → ℕ → List Sample → List MeterReading
readings_of o t ts [] = []
readings_of o t ts (x ∷ xs) = reading_of o t ts x ∷ readings_of o t ts xs

abbrev pub readings_in : Origin → Frame → List MeterReading
readings_in o f = elim f [
  | meter_values_frame t ts xs ↦ readings_of o t ts xs
  | boot_notification v m w ↦ []
  | status_notification c s e ↦ []
  | authorize_request tag ↦ []
  | start_request q ↦ []
  | stop_request q ↦ []
  | data_transfer_frame v m d ↦ []
  | firmware_status_frame s ↦ []
  | diagnostics_status_frame s ↦ []
  | security_event_frame k at info ↦ []
  | log_status_frame s request ↦ []
  | other_action a ↦ []
]

-- What a list of frames, each with its origin, has samples of.
abbrev pub all_readings : List (Origin × Frame) → List MeterReading
all_readings [] = []
all_readings ((o, f) ∷ fs) = readings_in o f ++ all_readings fs

module _ {T : Type 0} (roaming_check : ℕ → T → AuthStatus × T) (interval : ℕ) where
  abbrev pub handle_frames : List (Origin × Frame) → Gateway T → Gateway T
  handle_frames [] g = g
  handle_frames ((o, f) ∷ fs) g = handle_frames fs (handle_frame roaming_check interval o f g).1

  -- Once a stop has been handled, whether or not it raised, no reading waits any more: all that
  -- waited is written.
  pub stop_writes_all :
      (q : StopRequest) (g : Gateway T)
      → ((handle_stop_transaction roaming_check interval q g).1.meter_values.buffer ≡ [])
        × (all_written_rows (handle_stop_transaction roaming_check interval q g).1.meter_values
            ≡ all_written_rows g.meter_values ++ g.meter_values.buffer)
  stop_writes_all q g = elim (stop-cases roaming_check interval q g) [
    | inl e ↦ rw (e) (flush_writes g.meter_values)
    | inr (r, f, n, e) ↦ rw (e) (flush_writes g.meter_values)
  ]
