-- ===== src/Orchestrator/Execution/Events.antt =====
-- The events that an execution emits (agentorchestrator/agent_loop.go).
use nexixai_agentos.Prelude.{string_key}
use nexixai_agentos.Prelude.{
  ℕ, zero, suc, ◌+◌, String, refl, Bool, true, false, not, Option, none, some, List, [], ◌∷◌, ◌++◌,
  ◌==◌, ◌&&◌, ◌⊎◌, inl, inr, if◌then◌else◌, eqb, length, get_or, Bool-cases, arith, subst,
}
use nexixai_agentos.Pii.Patterns.{Bytes}
use nexixai_agentos.Orchestrator.Types.{RunStatus, running, Run}
use nexixai_agentos.Orchestrator.RunStore.{FileRunStore, lookup}
use nexixai_agentos.Orchestrator.Messages.{
  ToolCall, Message, ChatUsage, no_usage, ChatChoice, ChatResponse, message_text, build_prompt,
}
use nexixai_agentos.Orchestrator.EventSink.{
  run_started, model_invoke, model_response, tool_result, run_completed, run_failed, EventSink,
  emit,
}
use nexixai_agentos.Orchestrator.AgentLoop.{
  Turn, World, Job, emits, truncate, emit_calls, answered, invoke_model, max_steps_of, model_id_of,
  system_prompt_of, add_usage,
}
use nexixai_agentos.Orchestrator.Execution.{
  Outside, ended, StepResult, stops, continues, fail_found, fail_run, truncate_tool_output,
  emit_results, run_tools, complete, on_choice, on_choices, on_answer, others_ran, on_scanned,
  run_step, loop, transition_to_running, with_model, execute_run, scan_input_for_pii,
}
use nexixai_agentos.Orchestrator.Execution.Storage.{StepResult-cases}
use nexixai_agentos.Orchestrator.Execution.Sinks.{
  Extends, Ends, Extends-refl, Extends-trans, Ends-trans, Ends-weaken, emit-Extends, emit-Ends,
  emit_calls-Extends, answered-Extends,
}

module _ (out : Outside) (job : Job) where
  fail_found-Ends :
      (o : Option RunStatus) (runs : FileRunStore) (run : Run) (w : World) (code message : String)
      (now : ℕ)
      → Ends 0 w.sink (fail_found out job o runs run w code message now).sink
  fail_found-Ends (some status) runs run w code message now =
      emit-Ends w.sink (run_failed code message (some status)) refl refl
  fail_found-Ends none runs run w code message now =
      elim (Bool-cases (code == "provider_error" && run.retry_of == "" && job.auto_retry)) [
        | inl b ↦ rw b (emit-Ends w.sink (run_failed code message none) refl refl)
        | inr b ↦ rw b (emit-Ends w.sink (run_failed code message none) refl refl)
      ]

  fail_run-Ends :
      (run : Run) (w : World) (code message : String) (now : ℕ)
      → Ends 0 w.sink (fail_run out job run w code message now).sink
  unfolding fail_run
  fail_run-Ends run w code message now =
      let (runs, found) = lookup out.storage_key w.runs false run.tenant_id run.run_id in
      fail_found-Ends (ended found) runs run w code message now

  complete-Ends :
      (run : Run) (t : Turn) (w : World) (step : ℕ) (messages : List Message) (usage : ChatUsage)
      (text : Bytes)
      → Ends 0 w.sink (complete out job run t w step messages usage text).sink
  unfolding complete
  complete-Ends run t w step messages usage text =
      emit-Ends w.sink (run_completed step usage) refl refl

  emit_results-Extends :
      (t : Turn) (calls : List ToolCall) (w : World) (step : ℕ) (messages : List Message)
      → Extends 0 w.sink (emit_results out job t w step messages calls).0.sink
  emit_results-Extends t [] w step messages = Extends-refl w.sink
  emit_results-Extends t (c ∷ calls) w step messages =
      let result = truncate_tool_output out job (t.tools c) in
      Extends-trans 0 0 _ _ _
        (emit-Extends w.sink (tool_result step c.id (truncate result 500)) refl)
        (emit_results-Extends t calls _ step _)

  -- What a step adds: it ends the run, or leaves it open.
  abbrev Added : ℕ → EventSink → StepResult → Type 0
  Added k s (stops w) = Ends k s w.sink
  Added k s (continues messages usage w) = Extends k s w.sink

  Added-trans :
      (j k : ℕ) (a b : EventSink) (r : StepResult) → Extends j a b → Added k b r → Added (j + k) a r
  Added-trans j k a b (stops w) p q = Ends-trans j k a b w.sink p q
  Added-trans j k a b (continues messages usage w) p q = Extends-trans j k a b w.sink p q

  if-Added :
      (k : ℕ) (s : EventSink) (c : Bool) (a b : StepResult)
      → Added k s a
      → Added k s b
      → Added k s (if c then a else b)
  if-Added k s true a b p q = p
  if-Added k s false a b p q = q

  on_choice-Added :
      (run : Run) (t : Turn) (w : World) (step : ℕ) (messages : List Message) (usage : ChatUsage)
      (choice : ChatChoice)
      → Added 0 w.sink (on_choice out job run t w step messages usage choice)
  unfolding run_tools
  on_choice-Added run t w step messages usage choice =
      let calls = choice.message.tool_calls in
      let messages' = messages ++ choice.message ∷ [] in
      if-Added 0 w.sink (choice.finish_reason == "tool_calls" && not (eqb (length calls) 0))
        (run_tools out job t w step messages' usage calls)
        (stops (complete out job run t w step messages usage (message_text choice.message.content)))
        (Extends-trans 0 0 _ _ _ (emit_calls-Extends calls w step)
          (emit_results-Extends t calls (emit_calls w step calls) step messages'))
        (complete-Ends run t w step messages usage (message_text choice.message.content))

  on_choices-Added :
      (run : Run) (t : Turn) (w : World) (step : ℕ) (messages : List Message)
      (total used : ChatUsage) (choices : List ChatChoice)
      → Added 0 w.sink (on_choices out job run t w step messages total used choices)
  on_choices-Added run t w step messages total used [] =
      fail_run-Ends run w "provider_error" "no choices in model response" t.now
  on_choices-Added run t w step messages total used (c ∷ choices) =
      let payload = model_response step c.finish_reason used in
      Added-trans 0 0 w.sink (emit w.sink payload) _ (emit-Extends w.sink payload refl)
        (on_choice-Added run t _ step messages (add_usage total used) c)

  on_answer-Added :
      (run : Run) (t : Turn) (step : ℕ) (messages : List Message) (total : ChatUsage) (w : World)
      (answer : ChatResponse ⊎ String)
      → Added 0 w.sink (on_answer out job run t step messages total (w, answer))
  on_answer-Added run t step messages total w (inl r) =
      on_choices-Added run t w step messages total r.usage r.choices
  on_answer-Added run t step messages total w (inr error) = elim (Bool-cases t.canceled_after) [
    | inl b ↦ rw b (fail_run-Ends run w "canceled" "run canceled" t.now)
    | inr b ↦ rw b (fail_run-Ends run w "provider_error" error t.now)
  ]

  on_scanned-Added :
      (run : Run) (model : String) (t : Turn) (w : World) (step : ℕ) (total : ChatUsage)
      (messages : Option (List Message))
      → Added 1 w.sink (on_scanned out job run model t w step total messages)
  unfolding invoke_model
  on_scanned-Added run model t w step total none =
      Ends-weaken 0 1 _ _ (omega arith)
        (fail_run-Ends run w "pii_blocked" "PII detected in input" t.now)
  on_scanned-Added run model t w step total (some messages) =
      let invoked = emits w (model_invoke step model) in
      let (w', answer) = others_ran out job t (answered invoked step t.answer) in
      Added-trans 1 0 w.sink w'.sink _
        (Extends-trans 1 0 _ _ _ (emit-Extends w.sink (model_invoke step model) refl)
          (answered-Extends t.answer invoked step))
        (on_answer-Added run t step messages total w' answer)

  run_step-Added :
      (run : Run) (model : String) (t : Turn) (w : World) (step : ℕ) (messages : List Message)
      (total : ChatUsage)
      → Added 1 w.sink (run_step out job run model t w step messages total)
  unfolding run_step
  run_step-Added run model t w step messages total =
      if-Added 1 w.sink t.canceled_before
        (stops (fail_run out job run w "canceled" "run canceled" t.now))
        (on_scanned out job run model t w step total (scan_input_for_pii out job messages))
        (Ends-weaken 0 1 _ _ (omega arith) (fail_run-Ends run w "canceled" "run canceled" t.now))
        (on_scanned-Added run model t w step total (scan_input_for_pii out job messages))

  loop-Ends :
      (run : Run) (model : String) (turns : ℕ → Turn) (left : ℕ) (w : World) (step : ℕ)
      (messages : List Message) (total : ChatUsage)
      → Ends left w.sink (loop out job run model turns left w step messages total).sink
  unfolding loop
  loop-Ends run model turns zero w step messages total =
      fail_run-Ends run w "max_steps_exceeded" "run exceeded its maximum of steps" (turns step).now
  loop-Ends run model turns (suc left) w step messages total =
      let t = turns (step + 1) in
      let added = run_step-Added run model t w (step + 1) messages total in
      elim (StepResult-cases (run_step out job run model t w (step + 1) messages total)) [
        | inl (w', e) ↦
            rw (loop, e)
              (Ends-weaken 1 (suc left) w.sink w'.sink (omega arith)
                (subst (Added 1 w.sink) e added))
        | inr ((messages', total', w'), e) ↦
            rw (loop, e)
              (Ends-weaken (1 + left) (suc left) _ _ (omega arith) (
                Ends-trans 1 left w.sink w'.sink _ (subst (Added 1 w.sink) e added)
                  (loop-Ends run model turns left w' (step + 1) messages' total')))
      ]

  with_model-Ends :
      (run : Run) (turns : ℕ → Turn) (w : World) (model : Option String)
      → Ends
          (max_steps_of job.agent run.run_options job.default_max_steps)
          w.sink
          (with_model out job run turns w model).sink
  with_model-Ends run turns w none =
      Ends-weaken 0 (max_steps_of job.agent run.run_options job.default_max_steps) _ _ (omega arith)
        (fail_run-Ends run w "no_model" "no model configured for agent and no default model set"
          (turns 0).now)
  with_model-Ends run turns w (some model) =
      loop-Ends run model turns (max_steps_of job.agent run.run_options job.default_max_steps) w 0
        (build_prompt (system_prompt_of job.agent) run.input.text (get_or job.history [])) no_usage

  -- An execution comes to its end, whatever the model, the tools, the context and other requests do:
  -- it adds exactly one event that ends the run (completed or failed), as the last event of all,
  -- and calls the model at most as often as the agent's steps allow. Events that were numbered from
  -- 1 without a gap still are.
  pub execute_run-Ends :
      (run : Run) (turns : ℕ → Turn) (w : World)
      → Ends
          (max_steps_of job.agent run.run_options job.default_max_steps)
          w.sink
          (execute_run out job run turns w).sink
  unfolding execute_run transition_to_running
  execute_run-Ends queued_run turns w =
      let run = record queued_run { status = running; started_at = (turns 0).now } in
      let now = (turns 0).now in
      let steps = max_steps_of job.agent run.run_options job.default_max_steps in
      let w' = transition_to_running out job run w now in
      let model = model_id_of job.agent job.default_model in
      Ends-weaken (0 + steps) steps _ _ (omega arith) (
        Ends-trans 0 steps w.sink w'.sink _ (emit-Extends w.sink run_started refl)
          (with_model-Ends run turns w' model))
