-- ===== src/Jobs/Examples.antt =====
-- The theorems on the job queue and the worker at concrete inputs.
use nexixai_agentos.Prelude.{string_key}
use nexixai_agentos.Prelude.{
  ◌+◌, ◌*◌, ◌^◌, ◌≤◌, String, ◌≡◌, refl, some, List, [], ◌∷◌, All, arith, length,
}
use nexixai_agentos.Prelude.Dict.{Dict, get}
use nexixai_agentos.Jobs.Queue.{
  Job, pending, completed, with_max_attempts, memory_queue_max_jobs, enqueue, dequeue, backoff,
  add_duration, new_job, default_enqueue_options,
}
use nexixai_agentos.Jobs.Queue.Bounds.{
  Op, enqueues, dequeues, completes, fails, run, IsSound, run_bounded,
}
use nexixai_agentos.Jobs.Queue.Eviction.{active, active-enqueue}
use nexixai_agentos.Jobs.Queue.Retries.{Dequeues, dequeue-Dequeues, backoff_exact}
use nexixai_agentos.Jobs.Worker.{Handler}
use nexixai_agentos.Jobs.Worker.Runs.{poll_all, Retried, poll_all-retries}

abbrev due_job : Job
due_job = record {
  id = "job_1";
  job_type = "webhook";
  payload = "{}";
  status = pending;
  attempts = 0;
  max_attempts = 3;
  next_run_at = 10;
  created_at = 10;
  last_error = "";
}

abbrev done_job : Job
done_job = record due_job { id = "job_0"; status = completed; attempts = 1 }

abbrev calls : List Op
calls =
    enqueues "job_1" "webhook" (some "{}") (with_max_attempts 2 ∷ []) 10
    ∷ dequeues 20
    ∷ fails "job_1" "timeout" 30
    ∷ completes "job_1"
    ∷ []

run_bounded_example : (length (run [] calls) ≤ memory_queue_max_jobs) × All IsSound (run [] calls)
run_bounded_example = run_bounded calls

active-enqueue_example :
    active (enqueue (done_job ∷ due_job ∷ []) "job_2" "purge" (some "{}") [] 50).0
    ≡ due_job ∷ new_job "job_2" "purge" "{}" default_enqueue_options 50 ∷ []
active-enqueue_example =
    active-enqueue (done_job ∷ due_job ∷ []) "job_2" "purge" "{}" [] 50 (omega arith) refl

dequeue-Dequeues_example :
    Dequeues (done_job ∷ due_job ∷ []) 20 (dequeue (done_job ∷ due_job ∷ []) 20)
dequeue-Dequeues_example = dequeue-Dequeues (done_job ∷ due_job ∷ []) 20

backoff_exact_example : add_duration 100 (backoff 3) ≡ 100 + 5_000_000_000 * 3 ^ 2
backoff_exact_example = backoff_exact 2 100 (omega arith)

-- One attempt more, and the duration is negative.
backoff_overflows : add_duration (2 ^ 63) (backoff 21) ≤ 2 ^ 63
unfolding add_duration backoff
backoff_overflows = omega arith

abbrev handlers : Dict String Handler
handlers = ("webhook", λ j. some "timeout") ∷ []

-- A job that is done, ahead of the due one.
abbrev earlier_job : Job
earlier_job = record due_job { id = "job_0"; status = completed }

poll_all-retries_example :
    (k : Job) × (poll_all handlers
        (earlier_job ∷ due_job ∷ due_job ∷ [])
        ((10, 11) ∷ (5_000_000_011, 5_000_000_012) ∷ [])
      ≡ earlier_job ∷ k ∷ due_job ∷ [])
    × Retried due_job 2 "timeout" k
unfolding get backoff add_duration
poll_all-retries_example =
    poll_all-retries handlers (earlier_job ∷ []) (due_job ∷ []) due_job (λ j. some "timeout")
      "timeout" 10 11 ((5_000_000_011, 5_000_000_012) ∷ []) (refl, tt)
      ((refl, tt), ((refl, tt), tt)) refl refl (λ i e. refl) (omega arith, (omega arith, tt))
      (omega arith)
