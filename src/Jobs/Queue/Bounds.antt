-- ===== src/Jobs/Queue/Bounds.antt =====
-- The size of the queue, the attempts of its jobs, and what eviction drops
-- (internal/jobs/queue.go).
use Prim.Native.Nat.{max}
use nexixai_agentos.Prelude.{string_key}
use nexixai_agentos.Prelude.{
  ℕ, zero, suc, ◌-◌, ◌≤◌, ◌<◌, String, ◌≡◌, refl, ◌⊎◌, inl, inr, true, Option, none, some, List, [],
  ◌∷◌, ◌++◌, ◌==◌, length, length-append, All, arith, Bool-cases, leb,
}
use nexixai_agentos.Jobs.Queue.{
  Job, pending, EnqueueOption, memory_queue_max_jobs, is_finished, any_finished, remove_finished,
  evict_one, evict_loop, evict_locked, enqueue, dequeue, complete, fail, failed_job, started,
  is_eligible, new_job, apply_options, default_enqueue_options,
}

length-remove_finished :
    (js : List Job) → any_finished js ≡ true → suc (length (remove_finished js)) ≡ length js
length-remove_finished [] h = cc
length-remove_finished (j ∷ js) h = ground (arith, length-remove_finished js)

pub length-evict_one : (js : List Job) → length (evict_one js) ≡ length js - 1
length-evict_one [] = refl
length-evict_one (j ∷ js) = ground (arith, length-remove_finished (j ∷ js))

length-evict_loop :
    (fuel : ℕ) (js : List Job)
    → length js ≤ fuel
    → length (evict_loop fuel js) < memory_queue_max_jobs
unfolding evict_loop
length-evict_loop zero js h = omega arith
length-evict_loop (suc fuel) js h =
    ground (arith, length-evict_one js, length-evict_loop fuel (evict_one js))

-- The eviction ends with room for one more job.
pub length-evict_locked : (js : List Job) → length (evict_locked js) < memory_queue_max_jobs
unfolding evict_locked
length-evict_locked js = length-evict_loop (length js) js (omega arith)

pub length-dequeue : (js : List Job) (now : ℕ) → length (dequeue js now).0 ≡ length js
unfolding dequeue
length-dequeue [] now = refl
length-dequeue (j ∷ js) now = ground (arith, length-dequeue js now)

pub length-complete : (js : List Job) (id : String) → length (complete js id).0 ≡ length js
unfolding complete
length-complete [] id = refl
length-complete (j ∷ js) id = ground (arith, length-complete js id)

pub length-fail :
    (js : List Job) (id message : String) (now : ℕ) → length (fail js id message now).0 ≡ length js
unfolding fail
length-fail [] id message now = refl
length-fail (j ∷ js) id message now = ground (arith, length-fail js id message now)

-- A job runs at most `MaxAttempts` times (once, if that is 0), and waits for another run only
-- while attempts are left.
pub record IsSound (j : Job) : Type 0 where
  pub capped : j.attempts ≤ max 1 j.max_attempts
  pub can_run : j.status ≡ pending → (j.attempts ≡ 0) ⊎ (j.attempts < j.max_attempts)

All-remove_finished : (js : List Job) → All IsSound js → All IsSound (remove_finished js)
All-remove_finished [] h = tt
All-remove_finished (j ∷ js) h = elim (Bool-cases (is_finished j.status)) [
  | inl e ↦ rw e h.1
  | inr e ↦ rw e (h.0, All-remove_finished js h.1)
]

All-evict_one : (js : List Job) → All IsSound js → All IsSound (evict_one js)
All-evict_one [] h = tt
All-evict_one (j ∷ js) h = elim (Bool-cases (any_finished (j ∷ js))) [
  | inl e ↦ rw e (All-remove_finished (j ∷ js) h)
  | inr e ↦ rw e h.1
]

All-evict_loop : (fuel : ℕ) (js : List Job) → All IsSound js → All IsSound (evict_loop fuel js)
unfolding evict_loop
All-evict_loop zero js h = h
All-evict_loop (suc fuel) js h = elim (Bool-cases (leb memory_queue_max_jobs (length js))) [
  | inl e ↦ rw e (All-evict_loop fuel (evict_one js) (All-evict_one js h))
  | inr e ↦ rw e h
]

All-snoc : (js : List Job) (j : Job) → All IsSound js → IsSound j → All IsSound (js ++ j ∷ [])
All-snoc [] j h s = (s, tt)
All-snoc (i ∷ js) j h s = (h.0, All-snoc js j h.1 s)

started-IsSound : (now : ℕ) (j : Job) → is_eligible now j ≡ true → IsSound j → IsSound (started j)
started-IsSound now j e s = ground arith

failed_job-IsSound :
    (j : Job) (message : String) (now : ℕ) → IsSound j → IsSound (failed_job j message now)
failed_job-IsSound j message now s = ground arith

dequeue-All : (js : List Job) (now : ℕ) → All IsSound js → All IsSound (dequeue js now).0
unfolding dequeue
dequeue-All [] now h = tt
dequeue-All (j ∷ js) now h = elim (Bool-cases (is_eligible now j)) [
  | inl e ↦ rw e (started-IsSound now j e h.0, h.1)
  | inr e ↦ rw e (h.0, dequeue-All js now h.1)
]

complete-All : (js : List Job) (id : String) → All IsSound js → All IsSound (complete js id).0
unfolding complete
complete-All [] id h = tt
complete-All (j ∷ js) id h = elim (Bool-cases (j.id == id)) [
  | inl e ↦ rw e (record { capped = h.0.capped; can_run = λ p. cc }, h.1)
  | inr e ↦ rw e (h.0, complete-All js id h.1)
]

fail-All :
    (js : List Job) (id message : String) (now : ℕ)
    → All IsSound js
    → All IsSound (fail js id message now).0
unfolding fail
fail-All [] id message now h = tt
fail-All (j ∷ js) id message now h = elim (Bool-cases (j.id == id)) [
  | inl e ↦ rw e (failed_job-IsSound j message now h.0, h.1)
  | inr e ↦ rw e (h.0, fail-All js id message now h.1)
]

-- The calls of a queue's clients, in the order of its mutex.
pub data Op : Type 0 where
  enqueues : String → String → Option String → List EnqueueOption → ℕ → Op
  dequeues : ℕ → Op
  completes : String → Op
  fails : String → String → ℕ → Op

unfoldable pub run : List Job → List Op → List Job
run js [] = js
run js (enqueues id type payload opts now ∷ ops) = run (enqueue js id type payload opts now).0 ops
run js (dequeues now ∷ ops) = run (dequeue js now).0 ops
run js (completes id ∷ ops) = run (complete js id).0 ops
run js (fails id message now ∷ ops) = run (fail js id message now).0 ops

enqueue-Inv :
    (js : List Job) (id job_type : String) (payload : Option String) (opts : List EnqueueOption)
    (now : ℕ)
    → length js ≤ memory_queue_max_jobs
    → All IsSound js
    → let after = (enqueue js id job_type payload opts now).0 in
      (length after ≤ memory_queue_max_jobs) × All IsSound after
unfolding enqueue evict_locked
enqueue-Inv js id job_type none opts now fits h = (fits, h)
enqueue-Inv js id job_type (some payload) opts now fits h = (
  omega (
    arith,
    length-append (evict_loop (length js) js)
        (new_job id job_type payload (apply_options default_enqueue_options opts) now ∷ []),
    length-evict_loop (length js) js,
  ),
  All-snoc (evict_loop (length js) js) _ (All-evict_loop (length js) js h) (ground arith),
)

run-Inv :
    (js : List Job) (ops : List Op)
    → length js ≤ memory_queue_max_jobs
    → All IsSound js
    → (length (run js ops) ≤ memory_queue_max_jobs) × All IsSound (run js ops)
unfolding run
run-Inv js [] fits h = (fits, h)
run-Inv js (enqueues id type payload opts now ∷ ops) fits h =
    let (f, g) = enqueue-Inv js id type payload opts now fits h in
    run-Inv (enqueue js id type payload opts now).0 ops f g
run-Inv js (dequeues now ∷ ops) fits h =
    run-Inv (dequeue js now).0 ops (omega (arith, length-dequeue js now)) (dequeue-All js now h)
run-Inv js (completes id ∷ ops) fits h =
    run-Inv (complete js id).0 ops (omega (arith, length-complete js id)) (complete-All js id h)
run-Inv js (fails id message now ∷ ops) fits h =
    run-Inv (fail js id message now).0 ops (omega (arith, length-fail js id message now))
      (fail-All js id message now h)

-- After any calls on a new queue it holds at most 10000 jobs, each of which has run at most
-- `MaxAttempts` times (once, if that is 0) and is pending only with attempts left or before its
-- first run.
pub run_bounded :
    (ops : List Op) → (length (run [] ops) ≤ memory_queue_max_jobs) × All IsSound (run [] ops)
run_bounded ops = run-Inv [] ops (omega arith) tt
