-- ===== src/Jobs/Queue/Eviction.antt =====
-- What the eviction of the queue drops (internal/jobs/queue.go, evictLocked).
use nexixai_agentos.Prelude.{
  ℕ, zero, suc, ◌≤◌, ◌<◌, String, ◌≡◌, refl, ◌∙◌, ap, inl, inr, true, not, some, List, [], ◌∷◌,
  ◌++◌, length, select, select-append, arith, Bool-cases, leb,
}
use nexixai_agentos.Jobs.Queue.{
  Job, EnqueueOption, memory_queue_max_jobs, is_finished, any_finished, remove_finished, evict_one,
  evict_loop, evict_locked, enqueue, new_job, apply_options, default_enqueue_options,
}
use nexixai_agentos.Jobs.Queue.Bounds.{length-evict_one}

abbrev pub active : List Job → List Job
active = select (λ j. not (is_finished j.status))

active-remove_finished : (js : List Job) → active (remove_finished js) ≡ active js
active-remove_finished [] = refl
active-remove_finished (j ∷ js) = ground (arith, active-remove_finished js)

evict_loop-small :
    (fuel : ℕ) (js : List Job) → length js < memory_queue_max_jobs → evict_loop fuel js ≡ js
unfolding evict_loop
evict_loop-small zero js h = refl
evict_loop-small (suc fuel) js h = ground arith

active-evict_loop :
    (fuel : ℕ) (js : List Job)
    → length js ≤ memory_queue_max_jobs
    → any_finished js ≡ true
    → active (evict_loop fuel js) ≡ active js
unfolding evict_loop
active-evict_loop zero js fits h = refl
active-evict_loop (suc fuel) js fits h = elim (Bool-cases (leb memory_queue_max_jobs (length js))) [
  | inl full ↦
      rw (full, evict_loop-small fuel (evict_one js) (ground (arith, length-evict_one js)), h)
        (active-remove_finished js)
  | inr room ↦ rw room refl
]

-- While a job of a queue within its bound is completed or failed, adding a job drops no pending
-- or running one, and the new job comes last.
pub active-enqueue :
    (js : List Job) (id job_type payload : String) (opts : List EnqueueOption) (now : ℕ)
    → length js ≤ memory_queue_max_jobs
    → any_finished js ≡ true
    → active (enqueue js id job_type (some payload) opts now).0
      ≡ active js
        ++ new_job id job_type payload (apply_options default_enqueue_options opts) now ∷ []
unfolding enqueue evict_locked
active-enqueue js id job_type payload opts now fits some_finished =
    let o = apply_options default_enqueue_options opts in
    let added : List Job = new_job id job_type payload o now ∷ [] in
    select-append (λ j. not (is_finished j.status)) (evict_loop (length js) js) added
    ∙ ap (λ js'. js' ++ added) (active-evict_loop (length js) js fits some_finished)
