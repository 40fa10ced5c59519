-- ===== src/Orchestrator/Execution/Endings.antt =====
-- What ends a run, and what leaves the run store alone (agentorchestrator/agent_loop.go).
use nexixai_agentos.Prelude.{string_key}
use nexixai_agentos.Prelude.{
  ℕ, String, ◌≡◌, refl, sym, ◌∙◌, ap, subst, true, false, Option, none, some, List, [], ◌∷◌, ◌==◌,
  ◌&&◌, ◌⊎◌, inl, inr, eqb, length, Bool-cases, Option-cases, arith,
}
use nexixai_agentos.Prelude.Dict.{get}
use nexixai_agentos.Pii.Patterns.{Bytes}
use nexixai_agentos.Orchestrator.Types.{RunStatus, is_terminal, completed, failed, Run}
use nexixai_agentos.Orchestrator.RunStore.{FileRunStore, is_invalid, save, lookup}
use nexixai_agentos.Orchestrator.RunStore.Order.{Inv}
use nexixai_agentos.Orchestrator.RunStore.Lookup.{get-store_locked, lookup_reads}
use nexixai_agentos.Orchestrator.Messages.{ToolCall, Message, ChatUsage, no_usage}
use nexixai_agentos.Orchestrator.AgentLoop.{
  Turn, World, Job, StreamChunk, ModelAnswer, response, provider_error, stream, emit_calls,
  Streamed, collect, emit_tokens, stream_model_call, answered,
}
use nexixai_agentos.Orchestrator.Execution.{
  Outside, ended, fail_found, fail_run, emit_results, complete,
}

module _ (out : Outside) (job : Job) where
  abbrev key_of : Run → String
  key_of run = out.storage_key run.tenant_id run.run_id

  abbrev pub IsTerminal : Option Run → Type 0
  IsTerminal none = ⊥
  IsTerminal (some r) = is_terminal r.status ≡ true

  -- The run is stored with a status that is final.
  abbrev pub HasEnded : Run → FileRunStore → Type 0
  HasEnded run s = IsTerminal (get s.runs (out.storage_key run.tenant_id run.run_id))

  save-HasEnded :
      (run ended_run : Run) (s : FileRunStore)
      → Inv s
      → is_invalid ended_run ≡ false
      → (out.storage_key ended_run.tenant_id ended_run.run_id
          ≡ out.storage_key run.tenant_id run.run_id)
      → is_terminal ended_run.status ≡ true
      → HasEnded run (save out.storage_key s false ended_run job.end_disk_ok).0
  unfolding save
  save-HasEnded run ended_run s inv valid same h =
      rw (valid, ← same, get-store_locked s (key_of ended_run) ended_run job.end_disk_ok inv) h

  ended-IsTerminal :
      (o : Option Run) (status : RunStatus) → ended (some o) ≡ some status → IsTerminal o
  ended-IsTerminal none status h = cc
  ended-IsTerminal (some r) status h = ground arith

  fail_found-HasEnded :
      (o : Option RunStatus) (runs : FileRunStore) (run : Run) (w : World) (code message : String)
      (now : ℕ)
      → is_invalid run ≡ false
      → Inv runs
      → (o ≡ none) ⊎ HasEnded run runs
      → HasEnded run (fail_found out job o runs run w code message now).runs
  fail_found-HasEnded (some status) runs run w code message now valid inv (inl h) = cc
  fail_found-HasEnded (some status) runs run w code message now valid inv (inr h) = h
  fail_found-HasEnded none runs run w code message now valid inv h =
      let failed_run : Run = record run {
        status = failed;
        completed_at = now;
        error = some (record { code = code; message = message });
      } in
      elim (Bool-cases (code == "provider_error" && run.retry_of == "" && job.auto_retry)) [
        | inl b ↦ rw b (save-HasEnded run failed_run runs inv valid refl refl)
        | inr b ↦ rw b (save-HasEnded run failed_run runs inv valid refl refl)
      ]

  -- failRun leaves a run with a final status, whatever it finds.
  pub fail_run-HasEnded :
      (run : Run) (w : World) (code message : String) (now : ℕ)
      → is_invalid run ≡ false
      → Inv w.runs
      → HasEnded run (fail_run out job run w code message now).runs
  unfolding fail_run
  fail_run-HasEnded run w code message now valid inv =
      let (runs, found) = lookup out.storage_key w.runs false run.tenant_id run.run_id in
      let read = lookup_reads out.storage_key w.runs run valid inv in
      fail_found-HasEnded (ended found) runs run w code message now valid read.2
        (elim (Option-cases (ended found)) [
          | inl e ↦ inl e
          | inr (status, e) ↦ inr (
              subst (λ m. IsTerminal (get m (key_of run))) (sym read.1)
                (ended-IsTerminal (get w.runs.runs (key_of run)) status
                  (ap ended (sym read.0) ∙ e)))
        ])

  pub complete-HasEnded :
      (run : Run) (t : Turn) (w : World) (step : ℕ) (messages : List Message) (usage : ChatUsage)
      (text : Bytes)
      → is_invalid run ≡ false
      → Inv w.runs
      → HasEnded run (complete out job run t w step messages usage text).runs
  unfolding complete
  complete-HasEnded run t w step messages usage text valid inv =
      let completed_run : Run = record run {
        status = completed;
        completed_at = t.now;
        output = some (record { kind = "text"; text = text });
      } in
      save-HasEnded run completed_run w.runs inv valid refl refl

  -- Events do not touch the run store.
  pub emit_calls-runs :
      (calls : List ToolCall) (w : World) (step : ℕ) → (emit_calls w step calls).runs ≡ w.runs
  emit_calls-runs [] w step = refl
  emit_calls-runs (c ∷ calls) w step = emit_calls-runs calls _ step

  pub emit_results-runs :
      (t : Turn) (calls : List ToolCall) (w : World) (step : ℕ) (messages : List Message)
      → (emit_results out job t w step messages calls).0.runs ≡ w.runs
  emit_results-runs t [] w step messages = refl
  emit_results-runs t (c ∷ calls) w step messages = emit_results-runs t calls _ step _

  emit_tokens-runs :
      (chunks : List StreamChunk) (w : World) (step : ℕ) → (emit_tokens w step chunks).runs ≡ w.runs
  emit_tokens-runs [] w step = refl
  emit_tokens-runs (c ∷ chunks) w step = elim (Bool-cases (eqb (length c.delta) 0)) [
    | inl b ↦ rw (emit_tokens, b) (emit_tokens-runs chunks w step)
    | inr b ↦ rw (emit_tokens, b) (emit_tokens-runs chunks _ step)
  ]

  pub answered-runs :
      (answer : ModelAnswer) (w : World) (step : ℕ) → (answered w step answer).0.runs ≡ w.runs
  unfolding stream_model_call
  answered-runs (response r) w step = refl
  answered-runs (provider_error error) w step = refl
  answered-runs (stream chunks none) w step =
      let none_yet : Streamed = record {
        content = [];
        calls = [];
        finish_reason = "";
        usage = no_usage;
      } in
      emit_calls-runs (collect none_yet chunks).calls (emit_tokens w step chunks) step
      ∙ emit_tokens-runs chunks w step
  answered-runs (stream chunks (some error)) w step = emit_tokens-runs chunks w step
