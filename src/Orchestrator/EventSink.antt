-- ===== src/Orchestrator/EventSink.antt =====
-- agentorchestrator/events.go: the events of a run. Their ids and times are left out. A subscriber is
-- its channel: a number and the events in its buffer. The durable log is what it was handed.
pub mod Sequence
use nexixai_agentos.Prelude.{string_key, nat_key}
use nexixai_agentos.Prelude.{
  ℕ, ◌+◌, ◌-◌, String, Bool, true, false, not, Option, none, some, List, [], ◌∷◌, ◌++◌, ◌==◌,
  if◌then◌else◌, ltb, eqb, length, select,
}
use nexixai_agentos.Pii.Patterns.{Bytes}
use nexixai_agentos.Orchestrator.Types.{RunStatus}
use nexixai_agentos.Orchestrator.Messages.{ChatUsage}

-- The events that the agent loop emits, by their type.
pub data Payload : Type 0 where
  run_started : Payload
  model_invoke : ℕ → String → Payload
  token : ℕ → Bytes → Payload
  model_response : ℕ → String → ChatUsage → Payload
  tool_call : ℕ → String → String → Payload
  tool_result : ℕ → String → Bytes → Payload
  run_completed : ℕ → ChatUsage → Payload
  run_failed : String → String → Option RunStatus → Payload

pub record Event : Type 0 where
  pub sequence : ℕ
  pub payload : Payload

pub record Subscriber : Type 0 where
  pub channel : ℕ
  pub buffered : List Event

pub record EventSink : Type 0 where
  pub events : List Event
  pub seq : ℕ
  pub subscribers : List Subscriber
  pub done : Bool
  pub dropped_events : ℕ
  pub event_log : Option (List Event)

unfoldable pub new_event_sink : Option (List Event) → EventSink
new_event_sink log = record {
  events = [];
  seq = 0;
  subscribers = [];
  done = false;
  dropped_events = 0;
  event_log = log;
}

-- A full buffer drops the event: the subscribers, and the number of drops.
unfoldable pub notify_subscribers : ℕ → List Subscriber → Event → List Subscriber × ℕ
notify_subscribers buf_size [] env = ([], 0)
notify_subscribers buf_size (s ∷ subs) env =
    let (rest, dropped) = notify_subscribers buf_size subs env in
    if ltb (length s.buffered) buf_size
    then (record s { buffered = s.buffered ++ env ∷ [] } ∷ rest, dropped)
    else (s ∷ rest, dropped + 1)

abbrev logged : Option (List Event) → Event → Option (List Event)
logged none env = none
logged (some log) env = some (log ++ env ∷ [])

-- subscriberBufSize
abbrev pub subscriber_buf_size : ℕ
subscriber_buf_size = 64

unfoldable pub emit : EventSink → Payload → EventSink
emit s payload =
    let env : Event = record { sequence = s.seq + 1; payload = payload } in
    let (subscribers, dropped) = notify_subscribers subscriber_buf_size s.subscribers env in
    record s {
      seq = s.seq + 1;
      events = s.events ++ env ∷ [];
      subscribers = subscribers;
      dropped_events = s.dropped_events + dropped;
      event_log = logged s.event_log env;
    }

unfoldable pub events_from_sequence : EventSink → ℕ → List Event
events_from_sequence s after = select (λ (e : Event). ltb after e.sequence) s.events

unfoldable pub subscribe : EventSink → ℕ → EventSink
subscribe s channel = record s {
  subscribers = s.subscribers ++ record { channel = channel; buffered = [] } ∷ [];
}

abbrev without : ℕ → List Subscriber → List Subscriber
without channel [] = []
without channel (s ∷ subs) = if eqb s.channel channel then subs else s ∷ without channel subs

unfoldable pub unsubscribe : EventSink → ℕ → EventSink
unsubscribe s channel = record s { subscribers = without channel s.subscribers }

unfoldable pub finish : EventSink → EventSink
finish s = if s.done then s else record s { done = true; subscribers = [] }
