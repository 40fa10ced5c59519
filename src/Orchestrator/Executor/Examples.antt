-- ===== src/Orchestrator/Executor/Examples.antt =====
-- A job beside another one.
use nexixai_agentos.Prelude.{string_key}
use nexixai_agentos.Prelude.{
  ℕ, ◌+◌, ◌<◌, String, ◌≡◌, refl, false, none, some, List, [], ◌∷◌, ◌==◌, arith,
}
use nexixai_agentos.Orchestrator.EventSink.{EventSink, new_event_sink, emit, finish, run_started}
use nexixai_agentos.Orchestrator.Executor.{
  sink_ttl, new_executor, submit_job, event_sink_for_run, finish_job,
}
use nexixai_agentos.Orchestrator.Executor.Sweep.{
  Op, submits, cancels, finishes, run_all, event_sink_for_run-finish_job,
}

abbrev fresh : EventSink
fresh = new_event_sink none

abbrev started : EventSink
started = emit fresh run_started

abbrev earlier : List Op
earlier = submits "r2" fresh ∷ []

abbrev between : List Op
between = cancels "r1" ∷ submits "r3" fresh ∷ []

abbrev later : List Op
later = finishes "r2" started 60 ∷ []

event_sink_for_run-finish_job_example :
    let e = run_all (submit_job (run_all new_executor earlier) "r1" fresh) between in
    let e' = run_all (finish_job e "r1" started 50) later in
    (event_sink_for_run e "r1" ≡ some fresh)
    × (event_sink_for_run e' "r1" ≡ some (finish started))
    × ((k : String) (events : EventSink) (end : ℕ)
        → (k == "r1") ≡ false
        → 50 + sink_ttl < end
        → event_sink_for_run (finish_job e' k events end) "r1" ≡ none)
event_sink_for_run-finish_job_example =
    event_sink_for_run-finish_job "r1" fresh started 50 earlier between later (refl, tt)
      (tt, (refl, tt)) (refl, tt) (omega arith, tt)
