-- ===== src/Ocpp/Bus/Examples.antt =====
-- A consumer that fails once and handles the event when it is delivered again.
use evaggregator.Ocpp.Bus.{Event, EventConsumer, Shared, deliver, has_processed}
use evaggregator.Ocpp.Bus.Delivery.{IsExact, handled_exactly_once, here, own}
use evaggregator.Base.{Bool, [], false, refl, true, ℕ}

abbrev consumer : EventConsumer
consumer = record {
  name = 2;
  lag_threshold = 100;
  consecutive_failures = 0;
  handled_event_ids = [];
}

abbrev event : Event
event = record { id = 11; subject = 5; payload = 6 }

abbrev nothing_seen : Shared
nothing_seen = record { seen = []; alerts = [] }

abbrev failing : ℕ → Event → Bool
failing n e = false

abbrev succeeding : ℕ → Event → Bool
succeeding n e = true

handled_exactly_once_example :
    IsExact
      (deliver succeeding event
        (deliver succeeding event
          (deliver failing event consumer nothing_seen).0
          (deliver failing event consumer nothing_seen).1).0
        (deliver succeeding event
          (deliver failing event consumer nothing_seen).0
          (deliver failing event consumer nothing_seen).1).1).0
      (deliver succeeding event
        (deliver succeeding event
          (deliver failing event consumer nothing_seen).0
          (deliver failing event consumer nothing_seen).1).0
        (deliver succeeding event
          (deliver failing event consumer nothing_seen).0
          (deliver failing event consumer nothing_seen).1).1).1
unfolding has_processed
handled_exactly_once_example =
    handled_exactly_once (own (own (own here failing event) succeeding event) succeeding event)
      (record { once = λ id. refl })
