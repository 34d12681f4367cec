-- ===== src/Ocpp/Bus.antt =====
-- backend/src/evagg/ocpp_gateway/event_bus.py: the event bus, and consumers that handle each event
-- once. A consumer's handler, which may raise, is a parameter.
pub mod Delivery
mod Examples
use evaggregator.Base.{
  Bool, List, Option, [], any_by, if◌then◌else◌, leb, nat_eq, none, some, suc, ℕ, ◌&&◌, ◌++◌, ◌==◌,
  ◌∷◌,
}

pub record Event : Type 0 where
  pub id : ℕ
  pub subject : ℕ
  pub payload : ℕ

abbrev pub SeenEventStore : Type 0
SeenEventStore = List (ℕ × ℕ)

pub has_processed : ℕ → ℕ → SeenEventStore → Bool
has_processed consumer event s = any_by (λ k. (k.0 == consumer) && (k.1 == event)) s

pub mark_processed : ℕ → ℕ → SeenEventStore → SeenEventStore
mark_processed consumer event s = s ++ (consumer, event) ∷ []

pub record EventConsumer : Type 0 where
  pub name : ℕ
  pub lag_threshold : ℕ
  pub consecutive_failures : ℕ
  pub handled_event_ids : List ℕ

-- What the consumers share: who has handled what, the alerts, and what has been published.
pub record Shared : Type 0 where
  pub seen : SeenEventStore
  pub alerts : List (ℕ × ℕ)

abbrev pub alert_consumer_lag : ℕ → ℕ → Shared → Shared
alert_consumer_lag consumer lag s = record s { alerts = s.alerts ++ (consumer, lag) ∷ [] }

abbrev pub failed : EventConsumer → EventConsumer
failed c = record c { consecutive_failures = suc c.consecutive_failures }

abbrev pub alert_if_lagging : EventConsumer → Shared → Shared
alert_if_lagging c s =
    if leb c.lag_threshold c.consecutive_failures
    then alert_consumer_lag c.name c.consecutive_failures s
    else s

abbrev pub succeeded : Event → EventConsumer → EventConsumer
succeeded e c = record c {
  handled_event_ids = c.handled_event_ids ++ e.id ∷ [];
  consecutive_failures = 0;
}

-- `handler consumer event` says whether the handler returns (and not raises).
module _ (handler : ℕ → Event → Bool) where
  pub deliver : Event → EventConsumer → Shared → EventConsumer × Shared
  deliver e c s =
      if has_processed c.name e.id s.seen
      then (c, s)
      else if handler c.name e
      then (succeeded e c, record s { seen = mark_processed c.name e.id s.seen })
      else (failed c, alert_if_lagging (failed c) s)

  -- Every consumer in turn.
  pub deliver_all : Event → List EventConsumer → Shared → List EventConsumer × Shared
  deliver_all e [] s = ([], s)
  deliver_all e (c ∷ cs) s =
      let (c', s') = deliver e c s in let (cs', s'') = deliver_all e cs s' in (c' ∷ cs', s'')

pub record EventBus : Type 0 where
  pub consumers : List EventConsumer
  pub published : List Event
  pub shared : Shared

-- `self._consumers[consumer.name] = consumer`, with the consumers in the order of the dict
abbrev pub put_consumer : EventConsumer → List EventConsumer → List EventConsumer
put_consumer c [] = c ∷ []
put_consumer c (d ∷ ds) = if d.name == c.name then c ∷ ds else d ∷ put_consumer c ds

pub register_consumer : EventConsumer → EventBus → EventBus
register_consumer c b = record b { consumers = put_consumer c b.consumers }

module _ (handler : ℕ → Event → Bool) where
  pub publish : Event → EventBus → EventBus
  publish e b =
      let (cs, s) = deliver_all handler e b.consumers b.shared in
      record b { consumers = cs; published = b.published ++ e ∷ []; shared = s }

  -- To the consumer of the name only; there is none of the name if the list ends.
  pub deliver_to : Event → ℕ → List EventConsumer → Shared → Option (List EventConsumer × Shared)
  deliver_to e name [] s = none
  deliver_to e name (c ∷ cs) s =
      let rest = deliver_to e name cs s in
      if c.name == name
      then (let (c', s') = deliver handler e c s in some (c' ∷ cs, s'))
      else elim rest [ none ↦ none | some (cs', s') ↦ some (c ∷ cs', s') ]

  -- `none` is the `KeyError` of an unknown name.
  pub redeliver : Event → Option ℕ → EventBus → Option EventBus
  redeliver e none b =
      let (cs, s) = deliver_all handler e b.consumers b.shared in
      some (record b { consumers = cs; shared = s })
  redeliver e (some name) b = elim (deliver_to e name b.consumers b.shared) [
    | none ↦ none
    | some (cs, s) ↦ some (record b { consumers = cs; shared = s })
  ]
