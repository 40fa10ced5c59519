-- ===== src/Orchestrator/Execution.antt =====
-- agentorchestrator/agent_loop.go: executeRun and how it ends. The tools that the model is offered, and
-- the goroutine of an automatic retry, are left out: `retries` holds the runs to be retried.
pub mod Endings
pub mod Storage
pub mod Events
pub mod Sinks
use nexixai_agentos.Prelude.{string_key}
use nexixai_agentos.Prelude.{
  ℕ, zero, suc, ◌+◌, ◌-◌, String, Bool, true, false, not, Option, none, some, List, [], ◌∷◌, ◌++◌,
  ◌==◌, ◌&&◌, ◌||◌, ◌⊎◌, inl, inr, if◌then◌else◌, ltb, leb, eqb, length, take, get_or,
}
use nexixai_agentos.Pii.Patterns.{Bytes, PatternDef}
use nexixai_agentos.Pii.Detector.{Detection, scan}
use nexixai_agentos.Pii.Redactor.{redact}
use nexixai_agentos.Quota.TokenBudget.{TokenBudget, Usage, record_tokens}
use nexixai_agentos.Orchestrator.Types.{
  RunStatus, running, completed, failed, is_terminal, Run, RunOutput, RunError, new_run,
}
use nexixai_agentos.Orchestrator.RunStore.{FileRunStore, save, lookup}
use nexixai_agentos.Orchestrator.RunStore.Order.{run_all}
use nexixai_agentos.Orchestrator.Messages.{
  ToolCall, plain, Message, ChatUsage, no_usage, ChatChoice, ChatResponse, message_text,
  build_prompt,
}
use nexixai_agentos.Orchestrator.EventSink.{
  run_started, model_response, tool_result, run_completed, run_failed, emit,
}
use nexixai_agentos.Orchestrator.AgentLoop.{
  PiiMode, block, redacting, warn, Turn, Hook, hook_started, hook_completed, hook_step, hook_failed,
  World, Job, emits, hooks_to, max_steps_of, model_id_of, system_prompt_of, add_usage, truncate,
  emit_calls, invoke_model,
}

-- The status of a run that is found and has ended.
abbrev pub ended : Option (Option Run) → Option RunStatus
ended (some (some run)) = if is_terminal run.status then some run.status else none
ended _ = none

abbrev pub last_of : List Message → Option Message
last_of [] = none
last_of (m ∷ []) = some m
last_of (m ∷ n ∷ ms) = last_of (n ∷ ms)

abbrev set_last : List Message → Bytes → List Message
set_last [] text = []
set_last (m ∷ []) text = record m { content = plain text } ∷ []
set_last (m ∷ n ∷ ms) text = m ∷ set_last (n ∷ ms) text

abbrev tool_message : ToolCall → Bytes → Message
tool_message c result = record {
  role = "tool";
  content = plain result;
  tool_calls = [];
  tool_call_id = c.id;
  name = "";
}

abbrev recorded : Usage → Option TokenBudget → String → ℕ → ℕ → Option TokenBudget
recorded usage none tenant tokens now = none
recorded usage (some tb) tenant tokens now = some (record_tokens usage tb tenant tokens now).0

-- A step ends the run, or goes on with more messages.
pub data StepResult : Type 0 where
  stops : World → StepResult
  continues : List Message → ChatUsage → World → StepResult

pub record Outside : Type 0 where
  pub storage_key : String → String → String
  pub find_all : String → Bytes → List (ℕ × ℕ)
  pub bytes_of : String → Bytes
  pub truncation_note : ℕ → Bytes
  pub usage : Usage

module _ (out : Outside) (job : Job) where
  -- failRun, once the run was looked up.
  abbrev pub fail_found :
      Option RunStatus → FileRunStore → Run → World → String → String → ℕ → World
  fail_found (some status) runs run w code message now =
      emits (record w { runs = runs }) (run_failed code message (some status))
  fail_found none runs run w code message now =
      let failed_run : Run = record run {
        status = failed;
        completed_at = now;
        error = some (record { code = code; message = message });
      } in
      let saved = record w {
        runs = (save out.storage_key runs false failed_run job.end_disk_ok).0;
      } in
      let told = hooks_to (emits saved (run_failed code message none)) (hook_failed code message) in
      if code == "provider_error" && run.retry_of == "" && job.auto_retry
      then record told { retries = told.retries ++ failed_run ∷ [] }
      else told

  unfoldable pub fail_run : Run → World → String → String → ℕ → World
  fail_run run w code message now =
      let (runs, found) = lookup out.storage_key w.runs false run.tenant_id run.run_id in
      fail_found (ended found) runs run w code message now

  -- The latest message, if it is the user's.
  abbrev user_text : Option Message → Bytes
  user_text none = []
  user_text (some m) = if m.role == "user" then message_text m.content else []

  abbrev on_detection : PiiMode → List Message → Bytes → List Detection → Option (List Message)
  on_detection mode messages text [] = some messages
  on_detection block messages text (d ∷ ds) = none
  on_detection redacting messages text (d ∷ ds) =
      some (set_last messages (redact out.bytes_of text (d ∷ ds)))
  on_detection warn messages text (d ∷ ds) = some messages

  abbrev scanned : Option (List PatternDef) → List Message → Option (List Message)
  scanned none messages = some messages
  scanned (some enabled) messages =
      let text = user_text (last_of messages) in
      if eqb (length text) 0
      then some messages
      else on_detection job.pii_mode messages text (scan out.find_all enabled text)

  -- None blocks the run; else the messages, redacted if need be.
  unfoldable pub scan_input_for_pii : List Message → Option (List Message)
  scan_input_for_pii messages = scanned job.pii messages

  unfoldable pub truncate_tool_output : Bytes → Bytes
  truncate_tool_output result =
      if ltb 0 job.tool_max_output && ltb job.tool_max_output (length result)
      then take job.tool_max_output result ++ out.truncation_note job.tool_max_output
      else result

  -- The results of a step's tools: an event, a message and a hook for each.
  abbrev pub emit_results : Turn → World → ℕ → List Message → List ToolCall → World × List Message
  emit_results t w step messages [] = (w, messages)
  emit_results t w step messages (c ∷ cs) =
      let result = truncate_tool_output (t.tools c) in
      emit_results t
        (hooks_to (emits w (tool_result step c.id (truncate result 500)))
          (hook_step c.id c.name (truncate c.arguments 512) (truncate result 512)))
        step (messages ++ tool_message c result ∷ []) cs

  abbrev tools_ran : World × List Message → ChatUsage → StepResult
  tools_ran (w, messages) usage = continues messages usage w

  unfoldable pub run_tools :
      Turn → World → ℕ → List Message → ChatUsage → List ToolCall → StepResult
  run_tools t w step messages usage calls =
      tools_ran (emit_results t (emit_calls w step calls) step messages calls) usage

  -- The final response: the run is completed, and the conversation kept.
  unfoldable pub complete : Run → Turn → World → ℕ → List Message → ChatUsage → Bytes → World
  complete run t w step messages usage text =
      let completed_run : Run = record run {
        status = completed;
        completed_at = t.now;
        output = some (record { kind = "text"; text = text });
      } in
      let saved = record w {
        runs = (save out.storage_key w.runs false completed_run job.end_disk_ok).0;
      } in
      let told = hooks_to (emits saved (run_completed step usage)) hook_completed in
      record told { memory = told.memory ++ (if t.canceled_after then [] else messages) }

  abbrev pub on_choice : Run → Turn → World → ℕ → List Message → ChatUsage → ChatChoice → StepResult
  on_choice run t w step messages usage choice =
      if choice.finish_reason == "tool_calls" && not (eqb (length choice.message.tool_calls) 0)
      then run_tools t w step (messages ++ choice.message ∷ []) usage choice.message.tool_calls
      else stops (complete run t w step messages usage (message_text choice.message.content))

  abbrev pub on_choices :
      Run → Turn → World → ℕ → List Message → ChatUsage → ChatUsage → List ChatChoice → StepResult
  on_choices run t w step messages total used [] =
      stops (fail_run run w "provider_error" "no choices in model response" t.now)
  on_choices run t w step messages total used (choice ∷ choices) =
      let w' = record w {
        budget = recorded out.usage w.budget run.tenant_id used.total_tokens t.now;
      } in
      on_choice run t (emits w' (model_response step choice.finish_reason used)) step messages
        (add_usage total used) choice

  abbrev pub on_answer :
      Run → Turn → ℕ → List Message → ChatUsage → World × (ChatResponse ⊎ String) → StepResult
  on_answer run t step messages total (w, inl r) =
      on_choices run t w step messages total r.usage r.choices
  on_answer run t step messages total (w, inr error) = stops (
      if t.canceled_after
      then fail_run run w "canceled" "run canceled" t.now
      else fail_run run w "provider_error" error t.now)

  -- While the model answers, other requests change the run store.
  abbrev pub others_ran : Turn → World × (ChatResponse ⊎ String) → World × (ChatResponse ⊎ String)
  others_ran t (w, answer) = (record w { runs = run_all out.storage_key w.runs t.others }, answer)

  abbrev pub on_scanned :
      Run → String → Turn → World → ℕ → ChatUsage → Option (List Message) → StepResult
  on_scanned run model t w step total none =
      stops (fail_run run w "pii_blocked" "PII detected in input" t.now)
  on_scanned run model t w step total (some messages) =
      on_answer run t step messages total (others_ran t (invoke_model w step model t.answer))

  unfoldable pub run_step : Run → String → Turn → World → ℕ → List Message → ChatUsage → StepResult
  run_step run model t w step messages total =
      if t.canceled_before
      then stops (fail_run run w "canceled" "run canceled" t.now)
      else on_scanned run model t w step total (scan_input_for_pii messages)

  -- The loop, with the number of steps that are left.
  unfoldable pub loop : Run → String → (ℕ → Turn) → ℕ → World → ℕ → List Message → ChatUsage → World
  loop run model turns zero w step messages total =
      fail_run run w "max_steps_exceeded" "run exceeded its maximum of steps" (turns step).now
  loop run model turns (suc left) w step messages total =
      elim (run_step run model (turns (step + 1)) w (step + 1) messages total) [
        | stops w' ↦ w'
        | continues messages' total' w' ↦ loop run model turns left w' (step + 1) messages' total'
      ]

  unfoldable pub transition_to_running : Run → World → ℕ → World
  transition_to_running run w now =
      let saved = record w {
        runs = (save out.storage_key w.runs job.context_done run job.start_disk_ok).0;
      } in
      hooks_to (emits saved run_started) hook_started

  abbrev pub with_model : Run → (ℕ → Turn) → World → Option String → World
  with_model run turns w none =
      fail_run run w "no_model" "no model configured for agent and no default model set"
        (turns 0).now
  with_model run turns w (some model) =
      loop run model turns (max_steps_of job.agent run.run_options job.default_max_steps) w 0
        (build_prompt (system_prompt_of job.agent) run.input.text (get_or job.history [])) no_usage

  unfoldable pub execute_run : Run → (ℕ → Turn) → World → World
  execute_run queued_run turns w =
      let run = record queued_run { status = running; started_at = (turns 0).now } in
      with_model run turns (transition_to_running run w (turns 0).now)
        (model_id_of job.agent job.default_model)
