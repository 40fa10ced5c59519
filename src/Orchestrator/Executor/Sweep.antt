-- ===== src/Orchestrator/Executor/Sweep.antt =====
-- How long the sink of a run can be had (agentorchestrator/executor.go).
use nexixai_agentos.Prelude.{string_key}
use nexixai_agentos.Prelude.{
  ℕ, ◌+◌, ◌≤◌, ◌<◌, String, ◌≡◌, refl, ◌∙◌, Bool, true, false, Option, none, some, List, [], ◌∷◌,
  ◌==◌, not, if◌then◌else◌, is_some, Bool-cases, inl, inr, All, arith,
}
use nexixai_agentos.Prelude.Dict.{
  Dict, get, put, remove, get-put, get-put_self, get-remove, get-keep, kept,
}
use nexixai_agentos.Prelude.Apart.{IsApart, IsApart-put, IsApart-keep}
use nexixai_agentos.Orchestrator.EventSink.{EventSink, finish}
use nexixai_agentos.Orchestrator.Executor.{
  sink_ttl, Executor, new_executor, submit_job, cancel, event_sink_for_run, is_stale, drop_stale,
  evict_stale_sinks, finish_job,
}

pub data Op : Type 0 where
  submits : String → EventSink → Op
  cancels : String → Op
  finishes : String → EventSink → ℕ → Op

abbrev pub step : Executor → Op → Executor
step e (submits run_id events) = submit_job e run_id events
step e (cancels run_id) = cancel e run_id
step e (finishes run_id events now) = finish_job e run_id events now

abbrev pub run_all : Executor → List Op → Executor
run_all e [] = e
run_all e (op ∷ ops) = run_all (step e op) ops

abbrev is_stale_at : ℕ → Option ℕ → Bool
is_stale_at now none = false
is_stale_at now (some completed_at) = is_stale now completed_at

get-drop_stale :
    (now : ℕ) (completed : Dict String ℕ) (sinks : Dict String EventSink) (run_id : String)
    → IsApart completed
    → get (drop_stale now completed sinks) run_id
      ≡ (if is_stale_at now (get completed run_id) then none else get sinks run_id)
unfolding drop_stale get
get-drop_stale now [] sinks run_id h = refl
get-drop_stale now ((k, t) ∷ completed) sinks run_id h =
    let rest =
      get-drop_stale now completed (if is_stale now t then remove sinks k else sinks) run_id h.1 in
    elim (Bool-cases (k == run_id)) [
      | inl b ↦
          let same = (string_key.same_iff k run_id).0 b in
          let gone : get completed run_id ≡ none = rw (← same) (h.0) in
          elim (Bool-cases (is_stale now t)) [
            | inl s ↦ ground (arith, b, s, gone, rest, get-remove sinks k run_id)
            | inr s ↦ ground (arith, b, s, gone, rest)
          ]
      | inr b ↦ elim (Bool-cases (is_stale now t)) [
        | inl s ↦ ground (arith, b, s, rest, get-remove sinks k run_id)
        | inr s ↦ ground (arith, b, s, rest)
      ]
    ]

-- Calls that are not the start or the end of one run's job, and those up to a time.
abbrev pub IsOther : String → Op → Type 0
IsOther run_id (submits k events) = (k == run_id) ≡ false
IsOther run_id (cancels k) = Unit
IsOther run_id (finishes k events now) = (k == run_id) ≡ false

abbrev pub IsBy : ℕ → Op → Type 0
IsBy limit (submits k events) = Unit
IsBy limit (cancels k) = Unit
IsBy limit (finishes k events now) = now ≤ limit

-- What is booked on a run: its sink, and when it completed.
record Booked (run_id : String) (sink : Option EventSink) (at : Option ℕ) (e : Executor)
    : Type 0 where
  apart : IsApart e.sink_completed
  held : get e.event_sinks run_id ≡ sink
  completed : get e.sink_completed run_id ≡ at

-- The sweep at a time keeps what is booked on the run.
abbrev IsKept : Option ℕ → Op → Type 0
IsKept none op = Unit
IsKept (some completed_at) op = IsBy (completed_at + sink_ttl) op

module _ (run_id : String) (sink : Option EventSink) where
  evict_stale_sinks-Booked :
      (e : Executor) (at : Option ℕ) (now : ℕ)
      → is_stale_at now at ≡ false
      → Booked run_id sink at e
      → Booked run_id sink at (evict_stale_sinks e now)
  unfolding evict_stale_sinks
  evict_stale_sinks-Booked e at now fresh b = record {
    apart = IsApart-keep _ e.sink_completed b.apart;
    held =
        get-drop_stale now e.sink_completed e.event_sinks run_id b.apart
        ∙ rw (b.completed, fresh) (b.held);
    completed = rw (get-keep, b.completed) (kept_fresh at fresh);
  }
    where
      kept_fresh :
          (at : Option ℕ)
          → is_stale_at now at ≡ false
          → kept (λ (k : String) (t : ℕ). not (is_stale now t)) run_id at ≡ at
      kept_fresh none f = refl
      kept_fresh (some t) f = rw f refl

  step-Booked :
      (e : Executor) (at : Option ℕ) (op : Op)
      → IsOther run_id op
      → IsKept at op
      → Booked run_id sink at e
      → Booked run_id sink at (step e op)
  unfolding submit_job cancel finish_job
  step-Booked e at (submits k events) other within b = record {
    apart = b.apart;
    held = rw (get-put e.event_sinks k run_id events, other) (b.held);
    completed = b.completed;
  }
  step-Booked e at (cancels k) other within b = elim (Bool-cases (is_some (get e.cancels k))) [
    | inl c ↦ rw c (record { apart = b.apart; held = b.held; completed = b.completed })
    | inr c ↦ rw c b
  ]
  step-Booked e at (finishes k events now) other within b =
      evict_stale_sinks-Booked _ at now (not_stale at within) (record {
        apart = IsApart-put e.sink_completed k now b.apart;
        held = ground (arith, get-put e.event_sinks k run_id (finish events), other, b.held);
        completed = rw (get-put e.sink_completed k run_id now, other) (b.completed);
      })
    where
      not_stale : (at : Option ℕ) → IsKept at (finishes k events now) → is_stale_at now at ≡ false
      not_stale none h = refl
      not_stale (some t) h = ground arith

  run_all-Booked :
      (ops : List Op) (e : Executor) (at : Option ℕ)
      → All (IsOther run_id) ops
      → All (IsKept at) ops
      → Booked run_id sink at e
      → Booked run_id sink at (run_all e ops)
  run_all-Booked [] e at other within b = b
  run_all-Booked (op ∷ ops) e at other within b =
      run_all-Booked ops (step e op) at other.1 within.1 (step-Booked e at op other.0 within.0 b)

All-IsKept : (ops : List Op) → All (IsKept none) ops
All-IsKept [] = tt
All-IsKept (op ∷ ops) = (tt, All-IsKept ops)

new_executor-Booked : {run_id : String} → Booked run_id none none new_executor
unfolding new_executor get
new_executor-Booked = record { apart = tt; held = refl; completed = refl }

submit_job-Booked :
    (e : Executor) (run_id : String) (first : EventSink)
    → Booked run_id none none e
    → Booked run_id (some first) none (submit_job e run_id first)
unfolding submit_job
submit_job-Booked e run_id first b = record {
  apart = b.apart;
  held = get-put_self e.event_sinks run_id first;
  completed = b.completed;
}

-- A sink that is not stale yet at the time that its run completes.
finish_job-Booked :
    (e : Executor) (run_id : String) (first last : EventSink) (now : ℕ)
    → Booked run_id (some first) none e
    → Booked run_id (some (finish last)) (some now) (finish_job e run_id last now)
unfolding finish_job
finish_job-Booked e run_id first last now b =
    evict_stale_sinks-Booked run_id (some (finish last)) _ (some now) now (ground arith) (record {
      apart = IsApart-put e.sink_completed run_id now b.apart;
      held = rw (b.held) (get-put_self e.event_sinks run_id (finish last));
      completed = get-put_self e.sink_completed run_id now;
    })

finish_job-gone :
    (e : Executor) (run_id : String) (sink : EventSink) (k : String) (events : EventSink)
    (now end : ℕ)
    → (k == run_id) ≡ false
    → now + sink_ttl < end
    → Booked run_id (some sink) (some now) e
    → get (finish_job e k events end).event_sinks run_id ≡ none
unfolding finish_job evict_stale_sinks
finish_job-gone e run_id sink k events now end other late b =
    let stale : is_stale end now ≡ true = ground arith in
    let sinks =
      if is_some (get e.event_sinks k)
      then put e.event_sinks k (finish events)
      else e.event_sinks in
    get-drop_stale end (put e.sink_completed k end) sinks run_id
      (IsApart-put e.sink_completed k end b.apart)
    ∙ rw (get-put e.sink_completed k run_id end, other, b.completed, stale) refl

-- A job is submitted to an executor that had any calls for other runs, and ends later, with any
-- calls for other runs in between. Until it ends its run's sink can be had as it was submitted.
-- After it has ended, the sink that it left, done, can be had as long as no job of another run
-- ends more than the TTL of five minutes later; the first one that does takes it away.
pub event_sink_for_run-finish_job :
    (run_id : String) (first last : EventSink) (now : ℕ) (earlier between later : List Op)
    → All (IsOther run_id) earlier
    → All (IsOther run_id) between
    → All (IsOther run_id) later
    → All (IsBy (now + sink_ttl)) later
    → let e = run_all (submit_job (run_all new_executor earlier) run_id first) between in
      let e' = run_all (finish_job e run_id last now) later in
      (event_sink_for_run e run_id ≡ some first)
      × (event_sink_for_run e' run_id ≡ some (finish last))
      × ((k : String) (events : EventSink) (end : ℕ)
          → (k == run_id) ≡ false
          → now + sink_ttl < end
          → event_sink_for_run (finish_job e' k events end) run_id ≡ none)
unfolding event_sink_for_run
event_sink_for_run-finish_job run_id first last now earlier between later h1 h2 h3 by =
    let e0 = run_all new_executor earlier in
    let b0 =
      run_all-Booked run_id none earlier new_executor none h1 (All-IsKept earlier)
        new_executor-Booked in
    let b1 =
      run_all-Booked run_id (some first) between (submit_job e0 run_id first) none h2
        (All-IsKept between) (submit_job-Booked e0 run_id first b0) in
    let e = run_all (submit_job e0 run_id first) between in
    let b2 =
      run_all-Booked run_id (some (finish last)) later (finish_job e run_id last now) (some now) h3
        by (finish_job-Booked e run_id first last now b1) in
    (
      b1.held,
      b2.held,
      λ k events end other late.
          finish_job-gone (run_all (finish_job e run_id last now) later) run_id (finish last) k
            events now end other late b2,
    )
