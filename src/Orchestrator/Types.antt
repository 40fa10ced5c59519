-- ===== src/Orchestrator/Types.antt =====
-- internal/types/stacka.go: a run. The texts that go to and from the model are bytes. A time is its RFC 3339 text as a number; 0 is the empty text.
use nexixai_agentos.Prelude.{ℕ, String, Bool, true, false, Option, none}
use nexixai_agentos.Pii.Patterns.{Bytes}

-- The statuses that the code names, and any other text.
pub data RunStatus : Type 0 where
  queued : RunStatus
  running : RunStatus
  completed : RunStatus
  failed : RunStatus
  canceled : RunStatus
  errored : RunStatus
  other : String → RunStatus

-- `case "completed", "failed", "canceled"`
abbrev pub is_terminal : RunStatus → Bool
is_terminal completed = true
is_terminal failed = true
is_terminal canceled = true
is_terminal _ = false

-- Queued or running.
abbrev pub is_active : RunStatus → Bool
is_active queued = true
is_active running = true
is_active _ = false

pub record RunInput : Type 0 where
  pub kind : String
  pub text : Bytes

pub record RunOptions : Type 0 where
  pub priority : String
  pub timeout_ms : ℕ
  pub max_steps : ℕ
  pub stream_events : Bool

pub record RunOutput : Type 0 where
  pub kind : String
  pub text : Bytes

pub record RunError : Type 0 where
  pub code : String
  pub message : String

pub record Run : Type 0 where
  pub tenant_id : String
  pub agent_id : String
  pub run_id : String
  pub status : RunStatus
  pub created_at : ℕ
  pub started_at : ℕ
  pub completed_at : ℕ
  pub input : RunInput
  pub run_options : RunOptions
  pub output : Option RunOutput
  pub error : Option RunError
  pub idempotency_key : String
  pub retry_of : String
  pub parent_run_id : String

-- A run that was just created.
unfoldable pub new_run : String → String → String → ℕ → RunInput → RunOptions → Run
new_run tenant_id agent_id run_id now input options = record {
  tenant_id = tenant_id;
  agent_id = agent_id;
  run_id = run_id;
  status = queued;
  created_at = now;
  started_at = 0;
  completed_at = 0;
  input = input;
  run_options = options;
  output = none;
  error = none;
  idempotency_key = "";
  retry_of = "";
  parent_run_id = "";
}
