-- ===== src/Orchestrator/RunHandlers/Examples.antt =====
-- Concrete requests that create and cancel runs.
use nexixai_agentos.Prelude.{ℕ, String, Bool, refl, true, false, none, some, List, [], ◌∷◌}
use nexixai_agentos.Quota.MemoryBackend.{new_memory_backend}
use nexixai_agentos.Orchestrator.Types.{Run}
use nexixai_agentos.Orchestrator.RunStore.{new_file_run_store, save}
use nexixai_agentos.Orchestrator.RunHandlers.{
  Settings, Server, RunCreateRequest, Call, handle_run_create, handle_run_batch,
}
use nexixai_agentos.Orchestrator.RunHandlers.Slots.{
  created_by, Balanced, handle_run_create-Balanced, handle_run_batch-Balanced,
}
use nexixai_agentos.Orchestrator.Examples.{by_run_id, question, three_steps, first_run}
use nexixai_agentos.Orchestrator.RunHandlers.Cancellation.{CancelCall}

abbrev settings : Settings
settings = record {
  qps = 5;
  max_concurrent = 2;
  usage = λ tenant now. none;
  storage_key = by_run_id;
  agent_timeout = λ tenant agent. 0;
  has_executor = true;
  max_cancel_depth = 5;
}

abbrev server : Server
server = record {
  runs = new_file_run_store;
  limiter = new_memory_backend;
  token_budget = none;
  submitted = [];
  canceled = [];
}

abbrev request : RunCreateRequest
request = record { input = question; run_options = three_steps; idempotency_key = "k" }

abbrev call : String → Call
call run_id = record { now = 9; date = 1; run_id = run_id; ctx_done = false; disk_ok = true }

handle_run_create-Balanced_example :
    let (s', answer) = handle_run_create settings server "t" "a" (call "r1") (some request) in
    Balanced settings "t" (created_by settings "t" answer) server s'
handle_run_create-Balanced_example =
    handle_run_create-Balanced settings "t" server "a" (call "r1") (some request) refl

-- Three runs, of which the limit of two admits two.
abbrev batch : List (Call × RunCreateRequest)
batch = (call "r1", request) ∷ (call "r2", request) ∷ (call "r3", request) ∷ []

handle_run_batch-Balanced_example :
    (n : ℕ) × Balanced settings "t" n server
      (handle_run_batch settings server "t" "a" (some batch)).0
handle_run_batch-Balanced_example =
    handle_run_batch-Balanced settings "t" server "a" (some batch) refl

-- A server with a queued run and its child.
abbrev child_run : Run
child_run = record first_run { run_id = "r2"; parent_run_id = "r1" }

abbrev busy_server : Server
busy_server = record server {
  runs =
      (save by_run_id (save by_run_id new_file_run_store false first_run true).0 false child_run
        true).0;
}

-- The disk takes the save of the run itself, but not that of its child.
abbrev on_disk : List String → Bool
on_disk [] = true
on_disk (run_id ∷ path) = false

abbrev cancel_call : CancelCall
cancel_call = record {
  lookup_done = false;
  moment = λ path. record { date = 7; ctx_done = false; disk_ok = on_disk path; list_done = false };
}
