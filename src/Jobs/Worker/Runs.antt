-- ===== src/Jobs/Worker/Runs.antt =====
-- A job from its first run to its end (internal/jobs/worker.go and queue.go).
use nexixai_agentos.Prelude.{string_key}
use nexixai_agentos.Prelude.{
  ℕ, ◌+◌, ◌≤◌, ◌<◌, String, ◌≡◌, refl, none, some, true, false, ◌==◌, ap, ◌∙◌, All, List, [], ◌∷◌,
  ◌++◌, if◌then◌else◌, ltb, arith, ==_refl, length,
}
use nexixai_agentos.Prelude.Dict.{Dict, get}
use nexixai_agentos.Jobs.Queue.{
  Job, pending, completed, failed, started, dequeue, complete, fail, is_eligible, failed_job,
  backoff, add_duration,
}
use nexixai_agentos.Jobs.Worker.{Handler, poll}

-- Each poll comes when the job is due: at `due` the first, and after the backoff the others.
abbrev pub AllDue : ℕ → ℕ → List (ℕ × ℕ) → Type 0
AllDue due attempts [] = Unit
AllDue due attempts ((now, later) ∷ ts) =
    (due ≤ now) × AllDue (add_duration later (backoff (attempts + 1))) (attempts + 1) ts

-- At each poll no job of a list is eligible.
abbrev pub AllIdle : List Job → List (ℕ × ℕ) → Type 0
AllIdle js [] = Unit
AllIdle js ((now, later) ∷ ts) = All (λ j. is_eligible now j ≡ false) js × AllIdle js ts

-- The jobs have other ids.
abbrev pub AllOther : String → List Job → Type 0
AllOther id js = All (λ (j : Job). (j.id == id) ≡ false) js

-- What is left of a job after its last run so far has failed.
pub record Retried (j : Job) (runs : ℕ) (message : String) (k : Job) : Type 0 where
  pub attempts : k.attempts ≡ j.attempts + runs
  pub status : k.status ≡ (if ltb k.attempts k.max_attempts then pending else failed)
  pub last_error : k.last_error ≡ message
  pub max_attempts : k.max_attempts ≡ j.max_attempts

-- The first eligible job is started, wherever it stands.
dequeue_first :
    (before rest : List Job) (j : Job) (now : ℕ)
    → All (λ i. is_eligible now i ≡ false) before
    → is_eligible now j ≡ true
    → dequeue (before ++ j ∷ rest) now ≡ (before ++ started j ∷ rest, some (started j))
unfolding dequeue
dequeue_first [] rest j now idle due = rw due refl
dequeue_first (i ∷ before) rest j now idle due =
    rw (idle.0, dequeue_first before rest j now idle.1 due) refl

fail_here :
    (before rest : List Job) (j : Job) (message : String) (now : ℕ)
    → AllOther j.id before
    → (fail (before ++ j ∷ rest) j.id message now).0 ≡ before ++ failed_job j message now ∷ rest
unfolding fail
fail_here [] rest j message now other = rw (==_refl j.id) refl
fail_here (i ∷ before) rest j message now other =
    rw other.0 (ap (λ l. i ∷ l) (fail_here before rest j message now other.1))

complete_here :
    (before rest : List Job) (j : Job)
    → AllOther j.id before
    → (complete (before ++ j ∷ rest) j.id).0 ≡ before ++ record j { status = completed } ∷ rest
unfolding complete
complete_here [] rest j other = rw (==_refl j.id) refl
complete_here (i ∷ before) rest j other =
    rw other.0 (ap (λ l. i ∷ l) (complete_here before rest j other.1))

module _ (handlers : Dict String Handler) where
  -- One poll: the handler of the first eligible job runs, and the result is recorded.
  poll-fails :
      (before rest : List Job) (j : Job) (now later : ℕ) (handler : Handler) (message : String)
      → All (λ i. is_eligible now i ≡ false) before
      → AllOther j.id before
      → j.status ≡ pending
      → j.next_run_at ≤ now
      → get handlers j.job_type ≡ some handler
      → handler (started j) ≡ some message
      → poll handlers (before ++ j ∷ rest) now later
        ≡ before ++ failed_job (started j) message later ∷ rest
  unfolding poll
  poll-fails before rest j now later handler message idle other p due h e =
      let eligible : is_eligible now j ≡ true = ground (arith, p, due) in
      rw (dequeue_first before rest j now idle eligible, h, e)
        (fail_here before rest (started j) message later other)

  poll-succeeds :
      (before rest : List Job) (j : Job) (now later : ℕ) (handler : Handler)
      → All (λ i. is_eligible now i ≡ false) before
      → AllOther j.id before
      → j.status ≡ pending
      → j.next_run_at ≤ now
      → get handlers j.job_type ≡ some handler
      → handler (started j) ≡ none
      → poll handlers (before ++ j ∷ rest) now later
        ≡ before ++ record (started j) { status = completed } ∷ rest
  unfolding poll
  poll-succeeds before rest j now later handler idle other p due h e =
      let eligible : is_eligible now j ≡ true = ground (arith, p, due) in
      rw (dequeue_first before rest j now idle eligible, h, e)
        (complete_here before rest (started j) other)

  abbrev rescheduled : Job → String → ℕ → Job
  rescheduled j message later = record (started j) {
    last_error = message;
    status = pending;
    next_run_at = add_duration later (backoff (j.attempts + 1));
  }

  reschedules :
      (j : Job) (message : String) (later : ℕ)
      → j.attempts + 1 < j.max_attempts
      → failed_job (started j) message later ≡ rescheduled j message later
  reschedules j message later room = ground arith

  -- Polls one after the other, each with the times of its dequeue and of its outcome.
  pub poll_all : List Job → List (ℕ × ℕ) → List Job
  poll_all js [] = js
  poll_all js ((now, later) ∷ ts) = poll_all (poll handlers js now later) ts

  -- A job whose handler fails each time that it runs, polled when it is due and when no job ahead of
  -- it in the queue is eligible (the ids of those are others), runs once a poll: after each run
  -- with attempts left it waits for the next, and after the last it is failed. The message of the
  -- handler is kept. No other job of the queue changes, whatever jobs stand behind it.
  pub poll_all-retries :
      (before rest : List Job) (j : Job) (handler : Handler) (message : String) (now later : ℕ)
      (ts : List (ℕ × ℕ))
      → AllOther j.id before
      → AllIdle before ((now, later) ∷ ts)
      → j.status ≡ pending
      → get handlers j.job_type ≡ some handler
      → ((i : Job) → i.id ≡ j.id → handler i ≡ some message)
      → AllDue j.next_run_at j.attempts ((now, later) ∷ ts)
      → j.attempts + length ts < j.max_attempts
      → (k : Job) × (poll_all (before ++ j ∷ rest) ((now, later) ∷ ts) ≡ before ++ k ∷ rest)
        × Retried j (1 + length ts) message k
  unfolding poll_all
  poll_all-retries before rest j handler message now later [] other idle p h e due room = (
    failed_job (started j) message later,
    poll-fails before rest j now later handler message idle.0 other p due.0 h (e (started j) refl),
    ground arith,
  )
  poll_all-retries before rest j handler message now later ((now', later') ∷ ts) other idle p h e
        due room =
      let next = rescheduled j message later in
      let (k, result, left) =
        poll_all-retries before rest next handler message now' later' ts other idle.1 refl h e due.1
          (omega arith) in
      let polled =
        poll-fails before rest j now later handler message idle.0 other p due.0 h
          (e (started j) refl)
        ∙ ap (λ i. before ++ i ∷ rest) (reschedules j message later (omega arith)) in
      (k, rw polled result, ground (arith, left))
