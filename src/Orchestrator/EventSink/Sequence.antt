-- ===== src/Orchestrator/EventSink/Sequence.antt =====
-- The sequence numbers of events (agentorchestrator/events.go).
use nexixai_agentos.Prelude.{
  ℕ, zero, suc, ◌+◌, ◌≤◌, ◌≡◌, refl, ap, true, false, List, [], ◌∷◌, ◌++◌, ltb, length,
  length-append, drop, select, arith,
}
use nexixai_agentos.Orchestrator.EventSink.{Payload, Event, EventSink, emit, events_from_sequence}

-- The sequences are start + 1, start + 2 and so on.
abbrev pub Counts : ℕ → List Event → Type 0
Counts start [] = Unit
Counts start (e ∷ es) = (e.sequence ≡ start + 1) × Counts (start + 1) es

abbrev pub Inv : EventSink → Type 0
Inv s = Counts 0 s.events × (s.seq ≡ length s.events)

Counts-append :
    (start : ℕ) (es : List Event) (e : Event)
    → Counts start es
    → e.sequence ≡ start + length es + 1
    → Counts start (es ++ e ∷ [])
Counts-append start [] e c h = (omega arith, tt)
Counts-append start (d ∷ es) e c h = (c.0, Counts-append (start + 1) es e c.1 (omega arith))

pub emit-Inv : (s : EventSink) (payload : Payload) → Inv s → Inv (emit s payload)
unfolding emit
emit-Inv s payload inv = (
  Counts-append 0 s.events (record { sequence = s.seq + 1; payload = payload }) inv.0 (omega arith),
  omega (arith, length-append s.events (record { sequence = s.seq + 1; payload = payload } ∷ [])),
)

select_all :
    (after start : ℕ) (es : List Event)
    → after ≤ start
    → Counts start es
    → select (λ (e : Event). ltb after e.sequence) es ≡ es
select_all after start [] h c = refl
select_all after start (e ∷ es) h c =
    let later : ltb after e.sequence ≡ true = ground arith in
    rw later (ap (λ l. e ∷ l) (select_all after (start + 1) es (omega arith) c.1))

select-drop :
    (n start after : ℕ) (es : List Event)
    → after ≡ start + n
    → Counts start es
    → select (λ (e : Event). ltb after e.sequence) es ≡ drop n es
select-drop zero start after es h c = select_all after start es (omega arith) c
select-drop (suc n) start after [] h c = refl
select-drop (suc n) start after (e ∷ es) h c =
    let earlier : ltb after e.sequence ≡ false = ground arith in
    rw earlier (select-drop n (start + 1) after es (omega arith) c.1)

-- A client that has the first events of a run and asks for those after the last sequence that it
-- has gets exactly the rest.
pub events_from_sequence-drop :
    (s : EventSink) (n : ℕ) → Inv s → events_from_sequence s n ≡ drop n s.events
unfolding events_from_sequence
events_from_sequence-drop s n inv = select-drop n 0 n s.events (omega arith) inv.0
