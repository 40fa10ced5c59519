-- ===== src/Orchestrator/Execution/Sinks.antt =====
-- What a part of an execution adds to the events (agentorchestrator/agent_loop.go, events.go).
use nexixai_agentos.Prelude.{string_key}
use nexixai_agentos.Prelude.{
  ℕ, ◌+◌, ◌≤◌, ◌≡◌, refl, ◌∙◌, Bool, true, false, none, some, List, [], ◌∷◌, ◌++◌, inl, inr,
  if◌then◌else◌, eqb, length, Bool-cases, arith,
}
use nexixai_agentos.Orchestrator.Messages.{ToolCall, no_usage}
use nexixai_agentos.Orchestrator.EventSink.{
  Payload, model_invoke, token, tool_call, run_completed, run_failed, Event, EventSink, emit,
}
use nexixai_agentos.Orchestrator.EventSink.Sequence.{Inv, emit-Inv}
use nexixai_agentos.Orchestrator.AgentLoop.{
  World, StreamChunk, ModelAnswer, response, provider_error, stream, emits, emit_calls, Streamed,
  collect, emit_tokens, stream_model_call, answered,
}

-- An event that ends a run.
abbrev pub is_final : Payload → Bool
is_final (run_completed step usage) = true
is_final (run_failed code message status) = true
is_final payload = false

abbrev pub is_invocation : Payload → Bool
is_invocation (model_invoke step model) = true
is_invocation payload = false

abbrev pub count : (Payload → Bool) → List Event → ℕ
count p [] = 0
count p (e ∷ es) = (if p e.payload then 1 else 0) + count p es

abbrev pub ends_finally : List Event → Bool
ends_finally [] = false
ends_finally (e ∷ []) = is_final e.payload
ends_finally (e ∷ f ∷ es) = ends_finally (f ∷ es)

count-append :
    (p : Payload → Bool) (es : List Event) (e : Event)
    → count p (es ++ e ∷ []) ≡ count p es + (if p e.payload then 1 else 0)
count-append p [] e = omega arith
count-append p (d ∷ es) e = omega (arith, count-append p es e)

ends_finally-append :
    (es : List Event) (e : Event) → ends_finally (es ++ e ∷ []) ≡ is_final e.payload
ends_finally-append [] e = refl
ends_finally-append (d ∷ []) e = refl
ends_finally-append (d ∷ f ∷ es) e = ends_finally-append (f ∷ es) e

-- From one sink to another: no event that ends the run was added, and at most k calls of the model.
pub record Extends (k : ℕ) (s s' : EventSink) : Type 0 where
  pub unfinished : count is_final s'.events ≡ count is_final s.events
  pub asked : count is_invocation s'.events ≤ count is_invocation s.events + k
  pub ordered : Inv s → Inv s'

-- One event that ends the run was added, as the last one, and at most k calls of the model; the
-- events are still numbered from 1 without a gap, if they were.
pub record Ends (k : ℕ) (s s' : EventSink) : Type 0 where
  pub finished : count is_final s'.events ≡ count is_final s.events + 1
  pub last_final : ends_finally s'.events ≡ true
  pub asked : count is_invocation s'.events ≤ count is_invocation s.events + k
  pub ordered : Inv s → Inv s'

pub Extends-refl : (s : EventSink) → Extends 0 s s
Extends-refl s = record { unfinished = refl; asked = omega arith; ordered = λ inv. inv }

pub Extends-trans :
    (j k : ℕ) (a b c : EventSink) → Extends j a b → Extends k b c → Extends (j + k) a c
Extends-trans j k a b c p q = record {
  unfinished = omega (arith, p.unfinished, q.unfinished);
  asked = omega (arith, p.asked, q.asked);
  ordered = λ inv. q.ordered (p.ordered inv);
}

pub Ends-trans : (j k : ℕ) (a b c : EventSink) → Extends j a b → Ends k b c → Ends (j + k) a c
Ends-trans j k a b c p q = record {
  finished = omega (arith, p.unfinished, q.finished);
  last_final = q.last_final;
  asked = omega (arith, p.asked, q.asked);
  ordered = λ inv. q.ordered (p.ordered inv);
}

pub Ends-weaken : (j k : ℕ) (a b : EventSink) → j ≤ k → Ends j a b → Ends k a b
Ends-weaken j k a b h p = record {
  finished = p.finished;
  last_final = p.last_final;
  asked = omega (arith, p.asked);
  ordered = p.ordered;
}

pub emit-Extends :
    (s : EventSink) (payload : Payload)
    → is_final payload ≡ false
    → Extends (if is_invocation payload then 1 else 0) s (emit s payload)
unfolding emit
emit-Extends s payload h =
    let env : Event = record { sequence = s.seq + 1; payload = payload } in
    record {
      unfinished = rw (count-append is_final s.events env, h) (omega arith);
      asked = omega (arith, count-append is_invocation s.events env);
      ordered = emit-Inv s payload;
    }

pub emit-Ends :
    (s : EventSink) (payload : Payload)
    → is_final payload ≡ true
    → is_invocation payload ≡ false
    → Ends 0 s (emit s payload)
unfolding emit
emit-Ends s payload h g =
    let env : Event = record { sequence = s.seq + 1; payload = payload } in
    record {
      finished = rw (count-append is_final s.events env, h) refl;
      last_final = ends_finally-append s.events env ∙ h;
      asked = rw (count-append is_invocation s.events env, g) (omega arith);
      ordered = emit-Inv s payload;
    }

pub emit_calls-Extends :
    (calls : List ToolCall) (w : World) (step : ℕ) → Extends 0 w.sink (emit_calls w step calls).sink
emit_calls-Extends [] w step = Extends-refl w.sink
emit_calls-Extends (c ∷ calls) w step =
    let payload = tool_call step c.name c.id in
    Extends-trans 0 0 _ _ _ (emit-Extends w.sink payload refl)
      (emit_calls-Extends calls (emits w payload) step)

emit_tokens-Extends :
    (chunks : List StreamChunk) (w : World) (step : ℕ)
    → Extends 0 w.sink (emit_tokens w step chunks).sink
emit_tokens-Extends [] w step = Extends-refl w.sink
emit_tokens-Extends (c ∷ chunks) w step = elim (Bool-cases (eqb (length c.delta) 0)) [
  | inl b ↦ rw (emit_tokens, b) (emit_tokens-Extends chunks w step)
  | inr b ↦
      rw (emit_tokens, b)
        (Extends-trans 0 0 _ _ _ (emit-Extends w.sink (token step c.delta) refl)
          (emit_tokens-Extends chunks (emits w (token step c.delta)) step))
]

pub answered-Extends :
    (answer : ModelAnswer) (w : World) (step : ℕ) → Extends 0 w.sink (answered w step answer).0.sink
unfolding stream_model_call
answered-Extends (response r) w step = Extends-refl w.sink
answered-Extends (provider_error error) w step = Extends-refl w.sink
answered-Extends (stream chunks none) w step =
    let none_yet : Streamed = record {
      content = [];
      calls = [];
      finish_reason = "";
      usage = no_usage;
    } in
    Extends-trans 0 0 _ _ _ (emit_tokens-Extends chunks w step)
      (emit_calls-Extends (collect none_yet chunks).calls (emit_tokens w step chunks) step)
answered-Extends (stream chunks (some error)) w step = emit_tokens-Extends chunks w step
