-- ===== src/Orchestrator/RunHandlers/Canceled.antt =====
-- What a request to cancel a run does to the stored runs (agentorchestrator/server.go).
use nexixai_agentos.Prelude.{string_key}
use nexixai_agentos.Prelude.{String, ◌≡◌, Option, none, some}
use nexixai_agentos.Prelude.Dict.{Dict}
use nexixai_agentos.Orchestrator.Types.{canceled, Run}
use nexixai_agentos.Orchestrator.RunStore.{FileRunStore, StoreError}
use nexixai_agentos.Orchestrator.RunStore.Known.{IsStored}
use nexixai_agentos.Orchestrator.RunHandlers.{Settings, Server, Response, ok_run}
use nexixai_agentos.Orchestrator.RunHandlers.Cancellation.{CancelCall}
use nexixai_agentos.Orchestrator.RunHandlers.Cascade.{After}

module _ (cfg : Settings) (c : CancelCall) where
  abbrev IsSaved : Run → FileRunStore × Option StoreError → Type 0
  IsSaved run (runs, none) = IsStored cfg.storage_key runs.runs run
  IsSaved run (runs, some error) = Unit

  -- A run that a response reports is canceled, and stored so.
  abbrev pub Reported : Server × Response → Type 0
  Reported (s', ok_run run) = (run.status ≡ canceled) × IsStored cfg.storage_key s'.runs.runs run
  Reported (s', response) = Unit

  abbrev Done : Dict String Run → Server × Response → Type 0
  Done m (s', response) = After cfg c m s'.runs × Reported (s', response)
