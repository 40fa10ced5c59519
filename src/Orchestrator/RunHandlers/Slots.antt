-- ===== src/Orchestrator/RunHandlers/Slots.antt =====
-- The slots of concurrent runs that creating runs takes (agentorchestrator/server.go).
use nexixai_agentos.Prelude.{string_key}
use nexixai_agentos.Prelude.{
  ℕ, ◌+◌, ◌-◌, ◌≤◌, ◌<◌, String, ◌≡◌, refl, ◌∙◌, true, Option, none, some, List, [], ◌∷◌, ◌++◌,
  ◌==◌, ◌||◌, if◌then◌else◌, ltb, eqb, length, ==_refl, length-append, Bool-cases, Option-cases,
  inl, inr, arith,
}
use nexixai_agentos.Quota.MemoryBackend.{
  MemoryBackend, allow_qps, try_inc_concurrent, dec_concurrent,
}
use nexixai_agentos.Quota.MemoryBackend.Concurrency.{
  in_use, in_use-allow_qps, in_use-dec, try_inc_taken,
}
use nexixai_agentos.Orchestrator.Types.{Run}
use nexixai_agentos.Orchestrator.RunStore.{
  FileRunStore, StoreError, context_done, run_exists, invalid_run, persist_failed, create,
  get_by_idempotency_key,
}
use nexixai_agentos.Orchestrator.RunHandlers.{
  Settings, Server, Call, RunCreateRequest, Response, created_run, submit, release, within_budget,
  admit, run_of, store_error, on_created, on_existing, on_body, on_admitted, handle_run_create,
  on_batch_created, on_batch_admitted, batch_one, batch_runs, handle_run_batch,
}

module _ (cfg : Settings) (tenant : String) where
  abbrev pub slots : Server → ℕ
  slots s = in_use s.limiter tenant

  -- From one server state to another, n runs were handed to the executor and n slots taken.
  pub record Balanced (n : ℕ) (s s' : Server) : Type 0 where
    pub taken : in_use s'.limiter tenant ≡ in_use s.limiter tenant + n
    pub handed : length s'.submitted ≡ length s.submitted + n
    pub bounded :
        in_use s.limiter tenant ≤ cfg.max_concurrent → in_use s'.limiter tenant ≤ cfg.max_concurrent

  -- The runs that a response to a single request reports as created.
  abbrev pub created_by : Response → ℕ
  created_by (created_run run) = 1
  created_by response = 0

  -- Admission takes one slot, below the limit, or none.
  abbrev Admitted : Server → Server × Option Response → Type 0
  Admitted s (s', none) =
      (in_use s'.limiter tenant ≡ in_use s.limiter tenant + 1)
      × (in_use s.limiter tenant < cfg.max_concurrent)
      × (length s'.submitted ≡ length s.submitted)
  Admitted s (s', some refusal) = Balanced (created_by refusal) s s'

  released_slots :
      (m : MemoryBackend) → in_use (dec_concurrent m tenant) tenant ≡ in_use m tenant - 1
  released_slots m = in_use-dec m tenant tenant ∙ rw (==_refl tenant) refl

  admit-Admitted : (s : Server) (now : ℕ) → Admitted s (admit cfg s tenant now)
  unfolding admit
  admit-Admitted s now =
      let (limiter, allowed) = allow_qps s.limiter tenant cfg.qps now in
      let (limiter', free) = try_inc_concurrent limiter tenant cfg.max_concurrent in
      let (budget, left) = within_budget cfg s.token_budget tenant now in
      let same = in_use-allow_qps s.limiter tenant tenant cfg.qps now in
      let taken = try_inc_taken limiter tenant cfg.max_concurrent in
      let released = released_slots limiter' in
      elim (Bool-cases allowed) [
        | inr b ↦
            rw b (record { taken = omega arith; handed = omega arith; bounded = λ h. omega arith })
        | inl b ↦ elim (Bool-cases free) [
          | inr f ↦
              rw (b, f)
                (record { taken = ground arith; handed = omega arith; bounded = λ h. ground arith })
          | inl f ↦ elim (Bool-cases left) [
            | inr l ↦
                rw (b, f, l)
                  (record {
                    taken = ground arith;
                    handed = omega arith;
                    bounded = λ h. ground arith;
                  })
            | inl l ↦ rw (b, f, l) (ground arith, ground arith, refl)
          ]
        ]
      ]

  released-Balanced : (s a : Server) → Admitted s (a, none) → Balanced 0 s (release cfg a tenant)
  released-Balanced s a h =
      let released = released_slots a.limiter in
      record { taken = omega arith; handed = omega (arith, h.2); bounded = λ b. omega arith }

  submitted-Balanced :
      (s a : Server) (run : Run)
      → cfg.has_executor ≡ true
      → Admitted s (a, none)
      → Balanced 1 s (submit cfg a run)
  submitted-Balanced s a run e h = simp e (record {
    taken = h.0;
    handed = omega (arith, length-append {0} a.submitted, h.2);
    bounded = λ b. omega arith;
  })

  -- The slots that a request has taken when it is answered.
  abbrev Answered : Server → Server × Response → Type 0
  Answered s (s', response) = Balanced (created_by response) s s'

  refused-Answered :
      (s s' : Server) (error : StoreError) → Balanced 0 s s' → Answered s (s', store_error error)
  refused-Answered s s' run_exists h = h
  refused-Answered s s' invalid_run h = h
  refused-Answered s s' persist_failed h = h
  refused-Answered s s' context_done h = h

  on_created-Answered :
      (s a : Server) (run : Run) (r : FileRunStore × Option StoreError)
      → cfg.has_executor ≡ true
      → Admitted s (a, none)
      → Answered s (on_created cfg a tenant run r)
  on_created-Answered s a run (runs, none) e h =
      submitted-Balanced s (record a { runs = runs }) run e h
  on_created-Answered s a run (runs, some error) e h =
      refused-Answered s (release cfg (record a { runs = runs }) tenant) error
        (released-Balanced s (record a { runs = runs }) h)

  on_existing-Answered :
      (s a : Server) (run : Run) (c : Call) (o : Option (Option Run))
      → cfg.has_executor ≡ true
      → Admitted s (a, none)
      → Answered s (on_existing cfg a tenant run c o)
  on_existing-Answered s a run c (some (some existing)) e h = released-Balanced s a h
  on_existing-Answered s a run c (some none) e h =
      on_created-Answered s a run (create cfg.storage_key a.runs c.ctx_done run c.disk_ok) e h
  on_existing-Answered s a run c none e h =
      on_created-Answered s a run (create cfg.storage_key a.runs c.ctx_done run c.disk_ok) e h

  on_body-Answered :
      (s a : Server) (agent : String) (c : Call) (body : Option RunCreateRequest)
      → cfg.has_executor ≡ true
      → Admitted s (a, none)
      → Answered s (on_body cfg a tenant agent c body)
  on_body-Answered s a agent c none e h = released-Balanced s a h
  on_body-Answered s a agent c (some req) e h =
      on_existing-Answered s a (run_of cfg tenant agent c req) c
        (if req.idempotency_key == ""
          then some none
          else get_by_idempotency_key a.runs c.ctx_done tenant req.idempotency_key)
        e h

  on_admitted-Answered :
      (s : Server) (agent : String) (c : Call) (body : Option RunCreateRequest)
      (r : Server × Option Response)
      → cfg.has_executor ≡ true
      → Admitted s r
      → Answered s (on_admitted cfg tenant agent c body r)
  on_admitted-Answered s agent c body (a, none) e h = on_body-Answered s a agent c body e h
  on_admitted-Answered s agent c body (a, some refusal) e h = h

  -- Where there is an executor, a request to create a run that is answered with a new run has handed
  -- one run to the executor and taken one slot of the tenant. Any other answer (refusals by each
  -- quota, a bad body, the run of a known idempotency key, errors of the store) has handed over no
  -- run and given back the slot that it took. The limit of concurrent runs is not exceeded, if it was not before.
  pub handle_run_create-Balanced :
      (s : Server) (agent : String) (c : Call) (body : Option RunCreateRequest)
      → cfg.has_executor ≡ true
      → let (s', response) = handle_run_create cfg s tenant agent c body in
        Balanced (created_by response) s s'
  unfolding handle_run_create
  handle_run_create-Balanced s agent c body e =
      on_admitted-Answered s agent c body (admit cfg s tenant c.now) e (admit-Admitted s c.now)

  -- Some number of slots, and as many runs handed to the executor.
  abbrev pub AnyBalanced : Server → Server → Type 0
  AnyBalanced s s' = (n : ℕ) × Balanced n s s'

  Balanced-trans :
      (m n : ℕ) (a b c : Server) → Balanced m a b → Balanced n b c → Balanced (m + n) a c
  Balanced-trans m n a b c p q = record {
    taken = omega (arith, p.taken, q.taken);
    handed = omega (arith, p.handed, q.handed);
    bounded = λ h. q.bounded (p.bounded h);
  }

  batch_one-Balanced :
      (s : Server) (run : Run) (c : Call) (created : List Run) (r : Server × Option Response)
      → cfg.has_executor ≡ true
      → Admitted s r
      → AnyBalanced s (on_batch_admitted cfg tenant run c created r).0
  batch_one-Balanced s run c created (a, some refusal) e h = (created_by refusal, h)
  batch_one-Balanced s run c created (a, none) e h =
      on_batch_created-Balanced (create cfg.storage_key a.runs c.ctx_done run c.disk_ok)
    where
      on_batch_created-Balanced :
          (r : FileRunStore × Option StoreError)
          → AnyBalanced s (on_batch_created cfg a tenant run created r).0
      on_batch_created-Balanced (runs, none) =
          (1, submitted-Balanced s (record a { runs = runs }) run e h)
      on_batch_created-Balanced (runs, some error) =
          (0, released-Balanced s (record a { runs = runs }) h)

  batch_runs-Balanced :
      (reqs : List (Call × RunCreateRequest)) (s : Server) (agent : String) (created : List Run)
      → cfg.has_executor ≡ true
      → AnyBalanced s (batch_runs cfg s tenant agent created reqs).0
  unfolding batch_one
  batch_runs-Balanced [] s agent created e =
      (0, record { taken = omega arith; handed = omega arith; bounded = λ h. h })
  batch_runs-Balanced ((c, req) ∷ reqs) s agent created e =
      let run = run_of cfg tenant agent c req in
      let (s', answer) = on_batch_admitted cfg tenant run c created (admit cfg s tenant c.now) in
      let one =
        batch_one-Balanced s run c created (admit cfg s tenant c.now) e (admit-Admitted s c.now) in
      let rest = batch_runs-Balanced reqs s' agent (created ++ run ∷ []) e in
      elim (Option-cases answer) [
        | inl n ↦
            rw (batch_runs, n) (one.0 + rest.0, Balanced-trans one.0 rest.0 s s' _ one.1 rest.1)
        | inr (response, n) ↦ rw (batch_runs, n) one
      ]

  -- Where there is an executor, a batch takes exactly as many slots of the tenant as it hands runs to
  -- the executor, whatever it is answered: also when a later request of it is refused, and the
  -- answer is an error. The limit of concurrent runs is not exceeded, if it was not before.
  pub handle_run_batch-Balanced :
      (s : Server) (agent : String) (body : Option (List (Call × RunCreateRequest)))
      → cfg.has_executor ≡ true
      → (n : ℕ) × Balanced n s (handle_run_batch cfg s tenant agent body).0
  unfolding handle_run_batch
  handle_run_batch-Balanced s agent none e =
      (0, record { taken = omega arith; handed = omega arith; bounded = λ h. h })
  handle_run_batch-Balanced s agent (some reqs) e =
      elim (Bool-cases (eqb (length reqs) 0 || ltb 50 (length reqs))) [
        | inl b ↦ rw b (0, record { taken = omega arith; handed = omega arith; bounded = λ h. h })
        | inr b ↦ rw b (batch_runs-Balanced reqs s agent [] e)
      ]
