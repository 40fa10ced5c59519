-- ===== src/Orchestrator/Examples.antt =====
-- Concrete runs and requests of the orchestrator.
use nexixai_agentos.Prelude.{
  ℕ, ◌+◌, ◌≤◌, String, Bool, ◌≡◌, ◌⊎◌, refl, true, false, none, some, List, [], ◌∷◌, if◌then◌else◌,
  eqb,
}
use nexixai_agentos.Prelude.Dict.{size}
use nexixai_agentos.Orchestrator.Types.{queued, Run, RunInput, RunOptions}
use nexixai_agentos.Orchestrator.RunStore.{
  max_runs_in_run_store, new_file_run_store, create, save, lookup,
}
use nexixai_agentos.Orchestrator.RunStore.Order.{
  Inv, Op, creates, saves, looks_up, run_all, run_all-new_file_run_store, new_file_run_store-Inv,
  IsWritten,
}
use nexixai_agentos.Orchestrator.RunStore.Lookup.{lookup-save}
use nexixai_agentos.Orchestrator.Messages.{ToolCall, plain, no_usage, ChatResponse}
use nexixai_agentos.Orchestrator.EventSink.{
  run_started, model_invoke, EventSink, new_event_sink, emit,
}
use nexixai_agentos.Orchestrator.EventSink.Sequence.{Inv as SequenceInv}
use nexixai_agentos.Orchestrator.AgentLoop.{response, Turn, World, Job, warn, max_steps_of}
use nexixai_agentos.Orchestrator.Execution.{Outside, execute_run}
use nexixai_agentos.Orchestrator.Execution.Endings.{HasEnded}
use nexixai_agentos.Orchestrator.Execution.Storage.{execute_run-HasEnded}
use nexixai_agentos.Orchestrator.Execution.Sinks.{Ends}
use nexixai_agentos.Orchestrator.Execution.Events.{execute_run-Ends}

abbrev pub by_run_id : String → String → String
by_run_id tenant_id run_id = run_id

abbrev pub question : RunInput
question = record { kind = "text"; text = b'?' ∷ [] }

abbrev pub three_steps : RunOptions
three_steps = record { priority = ""; timeout_ms = 0; max_steps = 3; stream_events = false }

abbrev pub first_run : Run
first_run = record {
  tenant_id = "t";
  agent_id = "a";
  run_id = "r1";
  status = queued;
  created_at = 7;
  started_at = 0;
  completed_at = 0;
  input = question;
  run_options = three_steps;
  output = none;
  error = none;
  idempotency_key = "";
  retry_of = "";
  parent_run_id = "";
}

-- A run that is created, created again, looked up, and saved while the disk is full.
abbrev some_calls : List Op
some_calls =
    creates false first_run true
    ∷ creates false first_run true
    ∷ looks_up false "t" "r1"
    ∷ saves false first_run false
    ∷ []

run_all-new_file_run_store_example :
    Inv (run_all by_run_id new_file_run_store some_calls)
    × (size (run_all by_run_id new_file_run_store some_calls).disk ≤ max_runs_in_run_store)
    × ((ctx_done : Bool)
        → (run : Run) → (disk_ok : Bool)
        → IsWritten (
            create by_run_id (run_all by_run_id new_file_run_store some_calls) ctx_done run disk_ok)
          × IsWritten (
              save by_run_id
                (run_all by_run_id new_file_run_store some_calls)
                ctx_done
                run
                disk_ok))
run_all-new_file_run_store_example = run_all-new_file_run_store by_run_id some_calls

lookup-save_example :
    let s = run_all by_run_id new_file_run_store some_calls in
    let s' = (save by_run_id s false first_run false).0 in
    ((lookup by_run_id s' false "t" "r1").1 ≡ some (some first_run))
    × ((t r : String)
        → (by_run_id "t" "r1" ≡ by_run_id t r)
          ⊎ ((lookup by_run_id s' false t r).1 ≡ (lookup by_run_id s false t r).1)
          ⊎ ((lookup by_run_id s' false t r).1 ≡ some none))
lookup-save_example = lookup-save by_run_id some_calls first_run false refl

abbrev outside : Outside
outside = record {
  storage_key = by_run_id;
  find_all = λ pattern text. [];
  bytes_of = λ text. [];
  truncation_note = λ limit. [];
  usage = λ tenant now. none;
}

abbrev job : Job
job = record {
  agent = none;
  default_max_steps = 10;
  default_model = "m";
  pii = none;
  pii_mode = warn;
  tool_max_output = 0;
  auto_retry = true;
  history = none;
  start_disk_ok = true;
  end_disk_ok = false;
  context_done = false;
}

abbrev a_call : ToolCall
a_call = record { id = "c1"; name = "math_eval"; arguments = b'1' ∷ [] }

abbrev answer_with : List ToolCall → String → ChatResponse
answer_with calls reason = record {
  choices =
      record {
        message = record {
          role = "assistant";
          content = plain (b'!' ∷ []);
          tool_calls = calls;
          tool_call_id = "";
          name = "";
        };
        finish_reason = reason;
      }
      ∷ [];
  usage = no_usage;
}

-- The model calls a tool in the first step, and answers in the second. Meanwhile another request
-- saves the run.
abbrev turns : ℕ → Turn
turns n = record {
  canceled_before = false;
  answer =
      response (if eqb n 1 then answer_with (a_call ∷ []) "tool_calls" else answer_with [] "stop");
  canceled_after = false;
  tools = λ c. b'1' ∷ [];
  others = saves false first_run true ∷ [];
  now = 100 + n;
}

abbrev world : World
world = record {
  runs = new_file_run_store;
  sink = new_event_sink none;
  hooks = [];
  memory = [];
  budget = none;
  retries = [];
}

execute_run-HasEnded_example :
    HasEnded outside job first_run (execute_run outside job first_run turns world).runs
execute_run-HasEnded_example =
    execute_run-HasEnded outside job first_run turns world refl new_file_run_store-Inv

execute_run-Ends_example :
    Ends
      (max_steps_of none three_steps 10)
      (new_event_sink none)
      (execute_run outside job first_run turns world).sink
execute_run-Ends_example = execute_run-Ends outside job first_run turns world

abbrev two_events : EventSink
two_events = emit (emit (new_event_sink none) run_started) (model_invoke 1 "m")

new_event_sink-Inv : SequenceInv (new_event_sink none)
unfolding new_event_sink
new_event_sink-Inv = (tt, refl)
