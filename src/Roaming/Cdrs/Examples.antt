-- ===== src/Roaming/Cdrs/Examples.antt =====
-- A session whose stop event is delivered twice and whose record is pushed twice.
use evaggregator.Roaming.Cdrs.{CdrService, OcpiCdr}
use evaggregator.Roaming.Cdrs.Once.{
  Command, IsSentOnce, push_event, run, run-IsSentOnce, stop_event,
}
use evaggregator.Base.{List, [], refl, ◌∷◌}

abbrev first_record : OcpiCdr
first_record = record { id = 11; content = 1 }

abbrev other_record : OcpiCdr
other_record = record { id = 12; content = 1 }

abbrev stored : CdrService
stored = record { by_session = (2, first_record) ∷ []; sent = []; pushed = [] }

abbrev events : List Command
events =
    push_event 5 first_record ∷ stop_event 2 (λ u. other_record) ∷ push_event 5 first_record ∷ []

run-IsSentOnce_example : IsSentOnce (run events stored)
run-IsSentOnce_example = run-IsSentOnce events stored (record { counted = λ p c. refl })
