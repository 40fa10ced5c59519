-- ===== src/Orchestrator/Execution/Storage.antt =====
-- How the run store stands when a run was executed (agentorchestrator/agent_loop.go).
use nexixai_agentos.Prelude.{string_key}
use nexixai_agentos.Prelude.{
  ℕ, zero, suc, ◌+◌, String, ◌≡◌, refl, sym, ◌∙◌, subst, Bool, true, false, not, Option, none, some,
  List, [], ◌∷◌, ◌++◌, ◌==◌, ◌&&◌, ◌⊎◌, inl, inr, if◌then◌else◌, eqb, length, get_or, Bool-cases,
}
use nexixai_agentos.Orchestrator.Types.{running, Run}
use nexixai_agentos.Orchestrator.RunStore.{is_invalid}
use nexixai_agentos.Orchestrator.RunStore.Order.{Inv, run_all-Inv, step-Inv, saves}
use nexixai_agentos.Orchestrator.Messages.{
  Message, ChatUsage, no_usage, ChatChoice, ChatResponse, message_text, build_prompt,
}
use nexixai_agentos.Orchestrator.EventSink.{model_invoke}
use nexixai_agentos.Orchestrator.AgentLoop.{
  Turn, World, Job, emits, emit_calls, answered, invoke_model, max_steps_of, model_id_of,
  system_prompt_of,
}
use nexixai_agentos.Orchestrator.Execution.{
  Outside, StepResult, stops, continues, fail_run, run_tools, on_choice, on_choices, on_answer,
  others_ran, on_scanned, run_step, loop, transition_to_running, with_model, execute_run,
  scan_input_for_pii,
}
use nexixai_agentos.Orchestrator.Execution.Endings.{
  HasEnded, fail_run-HasEnded, complete-HasEnded, emit_calls-runs, emit_results-runs, answered-runs,
}

pub StepResult-cases :
    (r : StepResult)
    → ((w : World) × (r ≡ stops w))
      ⊎ ((x : List Message × ChatUsage × World) × (r ≡ continues x.0 x.1 x.2))
StepResult-cases (stops w) = inl (w, refl)
StepResult-cases (continues messages usage w) = inr ((messages, usage, w), refl)

module _ (out : Outside) (job : Job) where
  -- A step that stops has ended the run; one that goes on leaves the store in order.
  abbrev Stored : Run → StepResult → Type 0
  Stored run (stops w) = HasEnded out job run w.runs
  Stored run (continues messages usage w) = Inv w.runs

  on_choice-Stored :
      (run : Run) (t : Turn) (w : World) (step : ℕ) (messages : List Message) (usage : ChatUsage)
      (choice : ChatChoice)
      → is_invalid run ≡ false
      → Inv w.runs
      → Stored run (on_choice out job run t w step messages usage choice)
  unfolding run_tools
  on_choice-Stored run t w step messages usage choice valid inv =
      elim (Bool-cases
        (choice.finish_reason == "tool_calls" && not (eqb (length choice.message.tool_calls) 0))) [
          | inl b ↦
              let calls = choice.message.tool_calls in
              let same =
                emit_results-runs out job t calls (emit_calls w step calls) step
                  (messages ++ choice.message ∷ [])
                ∙ emit_calls-runs out job calls w step in
              rw b (subst Inv (sym same) inv)
          | inr b ↦ rw b (
              complete-HasEnded out job run t w step messages usage
                (message_text choice.message.content) valid inv)
        ]

  on_choices-Stored :
      (run : Run) (t : Turn) (w : World) (step : ℕ) (messages : List Message)
      (total used : ChatUsage) (choices : List ChatChoice)
      → is_invalid run ≡ false
      → Inv w.runs
      → Stored run (on_choices out job run t w step messages total used choices)
  on_choices-Stored run t w step messages total used [] valid inv =
      fail_run-HasEnded out job run w "provider_error" "no choices in model response" t.now valid
        inv
  on_choices-Stored run t w step messages total used (c ∷ choices) valid inv =
      on_choice-Stored run t _ step messages _ c valid inv

  on_answer-Stored :
      (run : Run) (t : Turn) (step : ℕ) (messages : List Message) (total : ChatUsage) (w : World)
      (answer : ChatResponse ⊎ String)
      → is_invalid run ≡ false
      → Inv w.runs
      → Stored run (on_answer out job run t step messages total (w, answer))
  on_answer-Stored run t step messages total w (inl r) valid inv =
      on_choices-Stored run t w step messages total r.usage r.choices valid inv
  on_answer-Stored run t step messages total w (inr error) valid inv =
      elim (Bool-cases t.canceled_after) [
        | inl b ↦ rw b (fail_run-HasEnded out job run w "canceled" "run canceled" t.now valid inv)
        | inr b ↦ rw b (fail_run-HasEnded out job run w "provider_error" error t.now valid inv)
      ]

  on_scanned-Stored :
      (run : Run) (model : String) (t : Turn) (w : World) (step : ℕ) (total : ChatUsage)
      (messages : Option (List Message))
      → is_invalid run ≡ false
      → Inv w.runs
      → Stored run (on_scanned out job run model t w step total messages)
  unfolding invoke_model
  on_scanned-Stored run model t w step total none valid inv =
      fail_run-HasEnded out job run w "pii_blocked" "PII detected in input" t.now valid inv
  on_scanned-Stored run model t w step total (some messages) valid inv =
      let (w', answer) =
        others_ran out job t (answered (emits w (model_invoke step model)) step t.answer) in
      let same = answered-runs out job t.answer (emits w (model_invoke step model)) step in
      on_answer-Stored run t step messages total w' answer valid
        (run_all-Inv out.storage_key t.others _ (subst Inv (sym same) inv))

  if-Stored :
      (run : Run) (c : Bool) (a b : StepResult)
      → Stored run a
      → Stored run b
      → Stored run (if c then a else b)
  if-Stored run true a b p q = p
  if-Stored run false a b p q = q

  run_step-Stored :
      (run : Run) (model : String) (t : Turn) (w : World) (step : ℕ) (messages : List Message)
      (total : ChatUsage)
      → is_invalid run ≡ false
      → Inv w.runs
      → Stored run (run_step out job run model t w step messages total)
  unfolding run_step
  run_step-Stored run model t w step messages total valid inv =
      if-Stored run t.canceled_before
        (stops (fail_run out job run w "canceled" "run canceled" t.now))
        (on_scanned out job run model t w step total (scan_input_for_pii out job messages))
        (fail_run-HasEnded out job run w "canceled" "run canceled" t.now valid inv)
        (on_scanned-Stored run model t w step total (scan_input_for_pii out job messages) valid inv)

  loop-HasEnded :
      (run : Run) (model : String) (turns : ℕ → Turn) (left : ℕ) (w : World) (step : ℕ)
      (messages : List Message) (total : ChatUsage)
      → is_invalid run ≡ false
      → Inv w.runs
      → HasEnded out job run (loop out job run model turns left w step messages total).runs
  unfolding loop
  loop-HasEnded run model turns zero w step messages total valid inv =
      fail_run-HasEnded out job run w "max_steps_exceeded" "run exceeded its maximum of steps"
        (turns step).now valid inv
  loop-HasEnded run model turns (suc left) w step messages total valid inv =
      let t = turns (step + 1) in
      let stored = run_step-Stored run model t w (step + 1) messages total valid inv in
      elim (StepResult-cases (run_step out job run model t w (step + 1) messages total)) [
        | inl (w', e) ↦ rw (loop, e) (subst (Stored run) e stored)
        | inr ((messages', total', w'), e) ↦
            rw (loop, e)
              (loop-HasEnded run model turns left w' (step + 1) messages' total' valid
                (subst (Stored run) e stored))
      ]

  with_model-HasEnded :
      (run : Run) (turns : ℕ → Turn) (w : World) (model : Option String)
      → is_invalid run ≡ false
      → Inv w.runs
      → HasEnded out job run (with_model out job run turns w model).runs
  with_model-HasEnded run turns w none valid inv =
      fail_run-HasEnded out job run w "no_model"
        "no model configured for agent and no default model set" (turns 0).now valid inv
  with_model-HasEnded run turns w (some model) valid inv =
      loop-HasEnded run model turns (max_steps_of job.agent run.run_options job.default_max_steps) w
        0 (build_prompt (system_prompt_of job.agent) run.input.text (get_or job.history []))
        no_usage valid inv

  -- Let the run have a tenant and an id, and the run store be in order, as it is after any calls on a
  -- new store. Then an execution comes to its end and leaves the run stored in memory with a final
  -- status, whatever the model, the tools and the context do, whether or not the disk takes the
  -- save at the start and, apart from that, the one at the end, and whatever other requests do to
  -- the store while the model answers.
  pub execute_run-HasEnded :
      (run : Run) (turns : ℕ → Turn) (w : World)
      → is_invalid run ≡ false
      → Inv w.runs
      → HasEnded out job run (execute_run out job run turns w).runs
  unfolding execute_run transition_to_running
  execute_run-HasEnded queued_run turns w valid inv =
      let run = record queued_run { status = running; started_at = (turns 0).now } in
      with_model-HasEnded run turns _ (model_id_of job.agent job.default_model) valid
        (step-Inv out.storage_key w.runs (saves job.context_done run job.start_disk_ok) inv)
