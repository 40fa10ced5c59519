-- ===== src/Orchestrator/RunHandlers.antt =====
-- agentorchestrator/server.go: the requests that create, retry and cancel runs. A request comes with what
-- is outside: its times, the new run's id, whether its context is done and whether the file is
-- written. Agents are kept elsewhere: `agent_timeout` is the timeout that an agent's configuration
-- sets, 0 if there is none. The executor is handed runs, and told which to cancel. Audit entries,
-- metrics and correlation ids are left out.
pub mod Slots
pub mod Cancellation
pub mod Cascade
pub mod Canceled
mod Examples
use nexixai_agentos.Prelude.{string_key}
use nexixai_agentos.Prelude.{
  ℕ, zero, suc, ◌+◌, String, Bool, true, false, not, Option, none, some, List, [], ◌∷◌, ◌++◌, ◌==◌,
  ◌||◌, if◌then◌else◌, ltb, eqb, length,
}
use nexixai_agentos.Quota.MemoryBackend.{
  MemoryBackend, allow_qps, try_inc_concurrent, dec_concurrent,
}
use nexixai_agentos.Quota.TokenBudget.{TokenBudget, Usage, check}
use nexixai_agentos.Orchestrator.Types.{
  RunStatus, canceled, failed, errored, is_terminal, is_active, Run, RunInput, RunOptions, new_run,
}
use nexixai_agentos.Orchestrator.RunStore.{
  FileRunStore, StoreError, context_done, run_exists, invalid_run, persist_failed, create, save,
  lookup, get_by_idempotency_key, list_child_runs,
}

pub record Settings : Type 0 where
  pub qps : ℕ
  pub max_concurrent : ℕ
  pub usage : Usage
  pub storage_key : String → String → String
  pub agent_timeout : String → String → ℕ
  pub has_executor : Bool
  pub max_cancel_depth : ℕ

-- `submitted` are the jobs that the executor was handed, with their timeouts in milliseconds;
-- `canceled` the runs that it was told to cancel.
pub record Server : Type 0 where
  pub runs : FileRunStore
  pub limiter : MemoryBackend
  pub token_budget : Option TokenBudget
  pub submitted : List (Run × ℕ)
  pub canceled : List String

pub record RunCreateRequest : Type 0 where
  pub input : RunInput
  pub run_options : RunOptions
  pub idempotency_key : String

pub record Call : Type 0 where
  pub now : ℕ
  pub date : ℕ
  pub run_id : String
  pub ctx_done : Bool
  pub disk_ok : Bool

pub data Response : Type 0 where
  ok_run : Run → Response
  created_run : Run → Response
  created_runs : List Run → Response
  refused : ℕ → String → Response

abbrev pub store_error : StoreError → Response
store_error run_exists = refused 409 "conflict"
store_error invalid_run = refused 400 "invalid_request"
store_error persist_failed = refused 500 "run_persist_failed"
store_error context_done = refused 500 "run_persist_failed"

-- In milliseconds; 300 seconds if neither the request nor the agent sets it.
abbrev timeout_of : ℕ → ℕ → ℕ
timeout_of requested configured =
    if ltb 0 requested then requested else if ltb 0 configured then configured else 300_000

module _ (cfg : Settings) where
  abbrev pub submit : Server → Run → Server
  submit s run =
      if cfg.has_executor
      then record s {
        submitted =
            s.submitted
            ++ (
              run,
              timeout_of run.run_options.timeout_ms (cfg.agent_timeout run.tenant_id run.agent_id),
            )
              ∷ [];
      }
      else s

  abbrev pub release : Server → String → Server
  release s tenant = record s { limiter = dec_concurrent s.limiter tenant }

  abbrev pub within_budget : Option TokenBudget → String → ℕ → Option TokenBudget × Bool
  within_budget none tenant now = (none, true)
  within_budget (some tb) tenant now =
      let (tb', left) = check cfg.usage tb tenant now in (some tb', left)

  -- The three quotas: the rate, the concurrent runs, the hour's tokens. None admits the request,
  -- with a slot taken.
  unfoldable pub admit : Server → String → ℕ → Server × Option Response
  admit s tenant now =
      let (limiter, allowed) = allow_qps s.limiter tenant cfg.qps now in
      let (limiter', free) = try_inc_concurrent limiter tenant cfg.max_concurrent in
      let (budget, left) = within_budget s.token_budget tenant now in
      if not allowed
      then (record s { limiter = limiter }, some (refused 429 "quota_exceeded"))
      else if not free
      then (record s { limiter = limiter' }, some (refused 429 "quota_exceeded"))
      else if not left
      then (
        record s { limiter = dec_concurrent limiter' tenant; token_budget = budget },
        some (refused 429 "token_budget_exceeded"),
      )
      else (record s { limiter = limiter'; token_budget = budget }, none)

  abbrev pub run_of : String → String → Call → RunCreateRequest → Run
  run_of tenant agent c req =
      record (new_run tenant agent c.run_id c.date req.input req.run_options) {
        idempotency_key = req.idempotency_key;
      }

  abbrev pub on_created :
      Server → String → Run → FileRunStore × Option StoreError → Server × Response
  on_created s tenant run (runs, none) = (submit (record s { runs = runs }) run, created_run run)
  on_created s tenant run (runs, some error) =
      (release (record s { runs = runs }) tenant, store_error error)

  abbrev pub on_existing : Server → String → Run → Call → Option (Option Run) → Server × Response
  on_existing s tenant run c (some (some existing)) = (release s tenant, ok_run existing)
  on_existing s tenant run c (some none) =
      on_created s tenant run (create cfg.storage_key s.runs c.ctx_done run c.disk_ok)
  on_existing s tenant run c none =
      on_created s tenant run (create cfg.storage_key s.runs c.ctx_done run c.disk_ok)

  -- A request whose body is no JSON has no request in it.
  abbrev pub on_body : Server → String → String → Call → Option RunCreateRequest → Server × Response
  on_body s tenant agent c none = (release s tenant, refused 400 "invalid_json")
  on_body s tenant agent c (some req) = on_existing s tenant (run_of tenant agent c req) c (
      if req.idempotency_key == ""
      then some none
      else get_by_idempotency_key s.runs c.ctx_done tenant req.idempotency_key)

  abbrev pub on_admitted :
      String
      → String
      → Call
      → Option RunCreateRequest
      → Server × Option Response
      → Server × Response
  on_admitted tenant agent c body (s, some refusal) = (s, refusal)
  on_admitted tenant agent c body (s, none) = on_body s tenant agent c body

  unfoldable pub handle_run_create :
      Server → String → String → Call → Option RunCreateRequest → Server × Response
  handle_run_create s tenant agent c body = on_admitted tenant agent c body (admit s tenant c.now)

  abbrev pub is_empty : List Run → Bool
  is_empty [] = true
  is_empty (r ∷ rs) = false

  -- What one request of a batch does: go on with the run that was created, or answer.
  abbrev pub on_batch_created :
      Server → String → Run → List Run → FileRunStore × Option StoreError → Server × Option Response
  on_batch_created s tenant run created (runs, none) = (submit (record s { runs = runs }) run, none)
  on_batch_created s tenant run created (runs, some error) = (
    release (record s { runs = runs }) tenant,
    some (if is_empty created then refused 500 "run_persist_failed" else created_runs created),
  )

  abbrev pub on_batch_admitted :
      String → Run → Call → List Run → Server × Option Response → Server × Option Response
  on_batch_admitted tenant run c created (s, some refusal) = (s, some refusal)
  on_batch_admitted tenant run c created (s, none) =
      on_batch_created s tenant run created (create cfg.storage_key s.runs c.ctx_done run c.disk_ok)

  -- One request of a batch. Its idempotency key is kept, but not looked up.
  unfoldable pub batch_one :
      Server → String → String → List Run → Call × RunCreateRequest → Server × Option Response
  batch_one s tenant agent created (c, req) =
      on_batch_admitted tenant (run_of tenant agent c req) c created (admit s tenant c.now)

  abbrev pub batch_runs :
      Server → String → String → List Run → List (Call × RunCreateRequest) → Server × Response
  batch_runs s tenant agent created [] = (s, created_runs created)
  batch_runs s tenant agent created ((c, req) ∷ reqs) =
      let (s', answer) = batch_one s tenant agent created (c, req) in
      elim answer [
        | some response ↦ (s', response)
        | none ↦ batch_runs s' tenant agent (created ++ run_of tenant agent c req ∷ []) reqs
      ]

  unfoldable pub handle_run_batch :
      Server → String → String → Option (List (Call × RunCreateRequest)) → Server × Response
  handle_run_batch s tenant agent none = (s, refused 400 "invalid_json")
  handle_run_batch s tenant agent (some reqs) =
      if eqb (length reqs) 0 || ltb 50 (length reqs)
      then (s, refused 400 "invalid_request")
      else batch_runs s tenant agent [] reqs
