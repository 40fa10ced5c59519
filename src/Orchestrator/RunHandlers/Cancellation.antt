-- ===== src/Orchestrator/RunHandlers/Cancellation.antt =====
-- agentorchestrator/server.go: canceling and retrying runs. The order in which a map lists the
-- children of a run is that of the store's list.
use nexixai_agentos.Prelude.{string_key}
use nexixai_agentos.Prelude.{
  ℕ, zero, suc, String, Bool, true, false, not, Option, none, some, List, [], ◌∷◌, ◌++◌,
  if◌then◌else◌, get_or,
}
use nexixai_agentos.Orchestrator.Types.{
  RunStatus, canceled, failed, errored, is_terminal, is_active, Run, new_run,
}
use nexixai_agentos.Orchestrator.RunStore.{
  FileRunStore, StoreError, create, save, lookup, list_child_runs,
}
use nexixai_agentos.Orchestrator.RunHandlers.{
  Settings, Server, Call, Response, ok_run, created_run, refused, submit, release,
}

-- When a run is saved as canceled: the date, whether the context is done and whether the disk takes
-- the write; and whether the context is done when the children of the run are listed after that.
pub record Moment : Type 0 where
  pub date : ℕ
  pub ctx_done : Bool
  pub disk_ok : Bool
  pub list_done : Bool

-- A request to cancel: whether its context is done when the run is looked up, and the moment of each
-- run, by the ids from that run up to the canceled one, which is left out.
pub record CancelCall : Type 0 where
  pub lookup_done : Bool
  pub moment : List String → Moment

module _ (cfg : Settings) where
  abbrev pub cancel_job : Server → String → Server
  cancel_job s run_id =
      if cfg.has_executor then record s { canceled = s.canceled ++ run_id ∷ [] } else s

  abbrev pub canceled_run : Run → ℕ → Run
  canceled_run run date = record run { status = canceled; completed_at = date }

  -- A child was saved, or could not be.
  abbrev pub on_child_saved :
      (Server → String → Server) → String → Server → Run → FileRunStore × Option StoreError → Server
  on_child_saved deeper tenant s child (runs, none) =
      deeper (release cfg (record s { runs = runs }) tenant) child.run_id
  on_child_saved deeper tenant s child (runs, some error) = record s { runs = runs }

  -- `path` are the ids from the parent up.
  abbrev pub cancel_child :
      (List String → Server → String → Server)
      → CancelCall
      → List String
      → String
      → Server
      → Run
      → Server
  cancel_child deeper c path tenant s child =
      let m = c.moment (child.run_id ∷ path) in
      if not (is_active child.status)
      then s
      else on_child_saved (deeper (child.run_id ∷ path)) tenant (cancel_job s child.run_id) child
          (save cfg.storage_key s.runs m.ctx_done (canceled_run child m.date) m.disk_ok)

  abbrev pub cancel_children :
      (List String → Server → String → Server)
      → CancelCall
      → List String
      → String
      → Server
      → List Run
      → Server
  cancel_children deeper c path tenant s [] = s
  cancel_children deeper c path tenant s (child ∷ children) =
      cancel_children deeper c path tenant (cancel_child deeper c path tenant s child) children

  -- cascadeCancelChildren, with the levels that are left.
  unfoldable pub cascade_cancel_children :
      ℕ → CancelCall → String → List String → Server → String → Server
  cascade_cancel_children zero c tenant path s parent = s
  cascade_cancel_children (suc levels) c tenant path s parent =
      cancel_children (cascade_cancel_children levels c tenant) c path tenant s
        (get_or (list_child_runs s.runs (c.moment path).list_done tenant parent) [])

  abbrev pub on_saved :
      CancelCall → String → Server → Run → FileRunStore × Option StoreError → Server × Response
  on_saved c tenant s run (runs, some error) =
      (record s { runs = runs }, refused 500 "run_persist_failed")
  on_saved c tenant s run (runs, none) = (
    release cfg
        (cascade_cancel_children cfg.max_cancel_depth c tenant [] (record s { runs = runs })
          run.run_id)
        tenant,
    ok_run run,
  )

  abbrev pub on_found :
      CancelCall → String → FileRunStore × Option (Option Run) → Server → Server × Response
  on_found c tenant (runs, none) s = (record s { runs = runs }, refused 500 "run_lookup_failed")
  on_found c tenant (runs, some none) s = (record s { runs = runs }, refused 404 "not_found")
  on_found c tenant (runs, some (some run)) s =
      if is_terminal run.status
      then (record s { runs = runs }, refused 409 "invalid_state_transition")
      else let m = c.moment [] in
        on_saved c tenant (cancel_job (record s { runs = runs }) run.run_id)
          (canceled_run run m.date)
          (save cfg.storage_key runs m.ctx_done (canceled_run run m.date) m.disk_ok)

  unfoldable pub handle_cancel : Server → String → String → CancelCall → Server × Response
  handle_cancel s tenant run_id c =
      on_found c tenant (lookup cfg.storage_key s.runs c.lookup_done tenant run_id) s

  -- "failed" or "error".
  abbrev is_retryable : RunStatus → Bool
  is_retryable failed = true
  is_retryable errored = true
  is_retryable _ = false

  abbrev pub retry_run : Run → Call → Run
  retry_run original c =
      record (new_run original.tenant_id original.agent_id c.run_id c.date original.input
        original.run_options) { retry_of = original.run_id }

  abbrev on_retry_created : Server → Run → FileRunStore × Option StoreError → Server × Response
  on_retry_created s run (runs, none) = (submit cfg (record s { runs = runs }) run, created_run run)
  on_retry_created s run (runs, some error) =
      (record s { runs = runs }, refused 500 "run_persist_failed")

  abbrev on_original : Call → FileRunStore × Option (Option Run) → Server → Server × Response
  on_original c (runs, none) s = (record s { runs = runs }, refused 500 "run_lookup_failed")
  on_original c (runs, some none) s = (record s { runs = runs }, refused 404 "not_found")
  on_original c (runs, some (some original)) s =
      if not (is_retryable original.status)
      then (record s { runs = runs }, refused 409 "run_not_terminal")
      else on_retry_created (record s { runs = runs }) (retry_run original c)
          (create cfg.storage_key runs c.ctx_done (retry_run original c) c.disk_ok)

  unfoldable pub handle_run_retry : Server → String → String → Call → Server × Response
  handle_run_retry s tenant run_id c =
      on_original c (lookup cfg.storage_key s.runs c.ctx_done tenant run_id) s
