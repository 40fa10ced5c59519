-- ===== src/Orchestrator/Executor.antt =====
-- agentorchestrator/executor.go: the executor's books on its jobs. A job is its run's id and its sink.
-- Its context is canceled when `canceled` lists the run. Run ids are fresh, and the queue has room. What a worker does
-- between taking a job and its end is the execution, which leaves the sink it is given here.
pub mod Sweep
mod Examples
use nexixai_agentos.Prelude.{string_key}
use nexixai_agentos.Prelude.{
  ℕ, ◌+◌, ◌*◌, String, Bool, true, false, Option, none, some, List, [], ◌∷◌, ◌++◌, not,
  if◌then◌else◌, ltb, is_some,
}
use nexixai_agentos.Prelude.Dict.{Dict, get, put, remove, keep}
use nexixai_agentos.Orchestrator.EventSink.{EventSink, finish}

-- sinkTTL, five minutes in nanoseconds.
abbrev pub sink_ttl : ℕ
sink_ttl = 300 * 1_000_000_000

pub record Executor : Type 0 where
  pub queue : List String
  pub cancels : Dict String String
  pub canceled : List String
  pub event_sinks : Dict String EventSink
  pub sink_completed : Dict String ℕ

unfoldable pub new_executor : Executor
new_executor = record {
  queue = [];
  cancels = [];
  canceled = [];
  event_sinks = [];
  sink_completed = [];
}

-- The function that cancels a job is known by its run.
unfoldable pub submit_job : Executor → String → EventSink → Executor
submit_job e run_id events = record e {
  cancels = put e.cancels run_id run_id;
  event_sinks = put e.event_sinks run_id events;
  queue = e.queue ++ run_id ∷ [];
}

abbrev taken : Executor → List String → Executor × Option String
taken e [] = (e, none)
taken e (run_id ∷ queue) = (record e { queue = queue }, some run_id)

-- A worker takes the next job.
unfoldable pub take_job : Executor → Executor × Option String
take_job e = taken e e.queue

unfoldable pub cancel : Executor → String → Executor
cancel e run_id =
    if is_some (get e.cancels run_id) then record e { canceled = e.canceled ++ run_id ∷ [] } else e

unfoldable pub event_sink_for_run : Executor → String → Option EventSink
event_sink_for_run e run_id = get e.event_sinks run_id

-- More than the TTL ago.
abbrev pub is_stale : ℕ → ℕ → Bool
is_stale now completed_at = ltb (completed_at + sink_ttl) now

-- `delete(e.eventSinks, runID)` for each completed run that is stale.
unfoldable pub drop_stale : ℕ → Dict String ℕ → Dict String EventSink → Dict String EventSink
drop_stale now [] sinks = sinks
drop_stale now ((run_id, completed_at) ∷ completed) sinks =
    drop_stale now completed (if is_stale now completed_at then remove sinks run_id else sinks)

unfoldable pub evict_stale_sinks : Executor → ℕ → Executor
evict_stale_sinks e now = record e {
  event_sinks = drop_stale now e.sink_completed e.event_sinks;
  sink_completed =
      keep (λ (run_id : String) (completed_at : ℕ). not (is_stale now completed_at))
        e.sink_completed;
}

-- What a worker does when it has executed a job, at a time: the sink that the execution left is done.
unfoldable pub finish_job : Executor → String → EventSink → ℕ → Executor
finish_job e run_id events now =
    let done = record e {
      event_sinks =
          if is_some (get e.event_sinks run_id)
          then put e.event_sinks run_id (finish events)
          else e.event_sinks;
      cancels = remove e.cancels run_id;
      sink_completed = put e.sink_completed run_id now;
    } in
    evict_stale_sinks done now
