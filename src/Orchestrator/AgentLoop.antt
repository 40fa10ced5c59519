-- ===== src/Orchestrator/AgentLoop.antt =====
-- agentorchestrator/agent_loop.go and the parts of executor.go that it uses. What is outside is
-- given by `Turn`s, one for each step: what the model answers, what each tool returns, when the
-- context is found done, and what other requests did to the run store in between. Tools run at
-- the same time; their results are read in the order of the calls.

use nexixai_agentos.Prelude.{string_key}
use nexixai_agentos.Prelude.{
  ℕ, ◌+◌, String, Bool, not, Option, none, some, List, [], ◌∷◌, ◌++◌, ◌==◌, ◌&&◌, if◌then◌else◌,
  ltb, leb, eqb, length, take, ◌⊎◌, inl, inr,
}
use nexixai_agentos.Pii.Patterns.{Bytes, PatternDef}
use nexixai_agentos.Quota.TokenBudget.{TokenBudget}
use nexixai_agentos.Orchestrator.Types.{Run, RunOptions}
use nexixai_agentos.Orchestrator.RunStore.{FileRunStore}
use nexixai_agentos.Orchestrator.RunStore.Order.{Op}
use nexixai_agentos.Orchestrator.Messages.{
  ToolCall, plain, Message, ChatUsage, no_usage, ChatResponse,
}
use nexixai_agentos.Orchestrator.EventSink.{
  Payload, model_invoke, token, tool_call, EventSink, emit,
}

pub record AgentConfig : Type 0 where
  pub system_prompt : Bytes
  pub model_id : String
  pub max_steps : ℕ

pub data PiiMode : Type 0 where
  block redacting warn : PiiMode

pub record StreamChunk : Type 0 where
  pub delta : Bytes
  pub tool_calls : List ToolCall
  pub finish_reason : String
  pub usage : Option ChatUsage

-- What the provider does: a response, an error, or a stream of chunks that ends or breaks off with
-- an error.
pub data ModelAnswer : Type 0 where
  response : ChatResponse → ModelAnswer
  provider_error : String → ModelAnswer
  stream : List StreamChunk → Option String → ModelAnswer

pub record Turn : Type 0 where
  pub canceled_before : Bool
  pub answer : ModelAnswer
  pub canceled_after : Bool
  pub tools : ToolCall → Bytes
  pub others : List Op
  pub now : ℕ

-- The events for the webhook.
pub data Hook : Type 0 where
  hook_started hook_completed : Hook
  hook_step : String → String → Bytes → Bytes → Hook
  hook_failed : String → String → Hook

-- What an execution changes.
pub record World : Type 0 where
  pub runs : FileRunStore
  pub sink : EventSink
  pub hooks : List Hook
  pub memory : List Message
  pub budget : Option TokenBudget
  pub retries : List Run

-- The executor and the job. An execution saves the run twice, when it starts and when it ends;
-- each save has its own answer of the disk.
pub record Job : Type 0 where
  pub agent : Option AgentConfig
  pub default_max_steps : ℕ
  pub default_model : String
  pub pii : Option (List PatternDef)
  pub pii_mode : PiiMode
  pub tool_max_output : ℕ
  pub auto_retry : Bool
  pub history : Option (List Message)
  pub start_disk_ok : Bool
  pub end_disk_ok : Bool
  pub context_done : Bool

abbrev pub emits : World → Payload → World
emits w payload = record w { sink = emit w.sink payload }

abbrev pub hooks_to : World → Hook → World
hooks_to w hook = record w { hooks = w.hooks ++ hook ∷ [] }

-- The agent's own model and steps, if it has a configuration.
abbrev pub max_steps_of : Option AgentConfig → RunOptions → ℕ → ℕ
max_steps_of none options default = if ltb 0 options.max_steps then options.max_steps else default
max_steps_of (some config) options default =
    if ltb 0 config.max_steps && eqb options.max_steps 0
    then config.max_steps
    else if ltb 0 options.max_steps
    then options.max_steps
    else default

abbrev model_or : String → String → Option String
model_or model default =
    if not (model == "") then some model else if not (default == "") then some default else none

abbrev pub model_id_of : Option AgentConfig → String → Option String
model_id_of none default = model_or "" default
model_id_of (some config) default = model_or config.model_id default

abbrev pub system_prompt_of : Option AgentConfig → Bytes
system_prompt_of none = []
system_prompt_of (some config) = config.system_prompt

abbrev pub add_usage : ChatUsage → ChatUsage → ChatUsage
add_usage a b = record {
  prompt_tokens = a.prompt_tokens + b.prompt_tokens;
  completion_tokens = a.completion_tokens + b.completion_tokens;
  total_tokens = a.total_tokens + b.total_tokens;
}

-- `truncate(s, n)`
abbrev pub truncate : Bytes → ℕ → Bytes
truncate s n = if leb (length s) n then s else take n s ++ b'.' ∷ b'.' ∷ b'.' ∷ []

-- The events of a stream's text, and what its chunks add up to.
pub record Streamed : Type 0 where
  pub content : Bytes
  pub calls : List ToolCall
  pub finish_reason : String
  pub usage : ChatUsage

abbrev pub emit_tokens : World → ℕ → List StreamChunk → World
emit_tokens w step [] = w
emit_tokens w step (c ∷ cs) =
    emit_tokens (if eqb (length c.delta) 0 then w else emits w (token step c.delta)) step cs

abbrev usage_or : Option ChatUsage → ChatUsage → ChatUsage
usage_or none old = old
usage_or (some usage) old = usage

abbrev pub collect : Streamed → List StreamChunk → Streamed
collect s [] = s
collect s (c ∷ cs) =
    collect
      (record {
        content = s.content ++ c.delta;
        calls = s.calls ++ c.tool_calls;
        finish_reason = if c.finish_reason == "" then s.finish_reason else c.finish_reason;
        usage = usage_or c.usage s.usage;
      })
      cs

abbrev pub emit_calls : World → ℕ → List ToolCall → World
emit_calls w step [] = w
emit_calls w step (c ∷ cs) = emit_calls (emits w (tool_call step c.name c.id)) step cs

abbrev streamed_response : Streamed → ChatResponse
streamed_response s = record {
  choices =
      record {
        message = record {
          role = "assistant";
          content = plain s.content;
          tool_calls = s.calls;
          tool_call_id = "";
          name = "";
        };
        finish_reason = if s.finish_reason == "" then "stop" else s.finish_reason;
      }
      ∷ [];
  usage = s.usage;
}

-- The end of a stream: an error drops what was collected.
abbrev stream_end : World → ℕ → Streamed → Option String → World × (ChatResponse ⊎ String)
stream_end w step s none = (emit_calls w step s.calls, inl (streamed_response s))
stream_end w step s (some error) = (w, inr error)

unfoldable pub stream_model_call :
    World → ℕ → List StreamChunk → Option String → World × (ChatResponse ⊎ String)
stream_model_call w step chunks error =
    stream_end (emit_tokens w step chunks) step
      (collect (record { content = []; calls = []; finish_reason = ""; usage = no_usage }) chunks)
      error

-- The provider's answer, buffered or streamed.
abbrev pub answered : World → ℕ → ModelAnswer → World × (ChatResponse ⊎ String)
answered w step (response r) = (w, inl r)
answered w step (provider_error error) = (w, inr error)
answered w step (stream chunks error) = stream_model_call w step chunks error

unfoldable pub invoke_model : World → ℕ → String → ModelAnswer → World × (ChatResponse ⊎ String)
invoke_model w step model answer = answered (emits w (model_invoke step model)) step answer
