-- ===== src/Jobs/Queue.antt =====
-- internal/jobs/queue.go, MemoryQueue. The clock, the fresh identifier of `id.New` and the result
-- of `json.Marshal` are arguments. The queue's jobs are its own: a caller reads the job that
-- Dequeue returns and does not write to it.
pub mod Bounds
pub mod Eviction
pub mod Retries
use nexixai_agentos.Prelude.{string_key}
use nexixai_agentos.Prelude.{
  ℕ, zero, suc, ◌+◌, ◌-◌, ◌*◌, ◌%◌, ◌^◌, String, Bool, true, false, Option, none, some, List, [],
  ◌∷◌, ◌++◌, ◌==◌, ◌&&◌, ◌||◌, if◌then◌else◌, ltb, leb, length,
}

pub data JobStatus : Type 0 where
  pending running completed failed : JobStatus

-- `MaxAttempts` is compared with the attempts only: a negative one acts as 0, and is 0 here.
pub record Job : Type 0 where
  pub id : String
  pub job_type : String
  pub payload : String
  pub status : JobStatus
  pub attempts : ℕ
  pub max_attempts : ℕ
  pub next_run_at : ℕ
  pub created_at : ℕ
  pub last_error : String

pub record EnqueueOptions : Type 0 where
  pub max_attempts : ℕ
  pub delay : ℕ

pub data EnqueueOption : Type 0 where
  with_max_attempts with_delay : ℕ → EnqueueOption

pub data Error : Type 0 where
  marshal_error job_not_found : Error

abbrev pub default_enqueue_options : EnqueueOptions
default_enqueue_options = record { max_attempts = 3; delay = 0 }

abbrev pub apply_options : EnqueueOptions → List EnqueueOption → EnqueueOptions
apply_options o [] = o
apply_options o (with_max_attempts n ∷ opts) = apply_options (record o { max_attempts = n }) opts
apply_options o (with_delay d ∷ opts) = apply_options (record o { delay = d }) opts

abbrev pub memory_queue_max_jobs : ℕ
memory_queue_max_jobs = 10000

abbrev pub is_finished : JobStatus → Bool
is_finished completed = true
is_finished failed = true
is_finished _ = false

abbrev pub any_finished : List Job → Bool
any_finished [] = false
any_finished (j ∷ js) = is_finished j.status || any_finished js

abbrev remove_finished : List Job → List Job
remove_finished [] = []
remove_finished (j ∷ js) = if is_finished j.status then js else j ∷ remove_finished js

abbrev rest_of : List Job → List Job
rest_of [] = []
rest_of (j ∷ js) = js

-- One round of the eviction: the oldest finished job goes, or the oldest job if none is finished.
abbrev pub evict_one : List Job → List Job
evict_one js = if any_finished js then remove_finished js else rest_of js

evict_loop : ℕ → List Job → List Job
evict_loop zero js = js
evict_loop (suc fuel) js =
    let rest = evict_loop fuel (evict_one js) in
    if leb memory_queue_max_jobs (length js) then rest else js

-- Each round removes a job, so the number of jobs is enough fuel.
unfoldable pub evict_locked : List Job → List Job
unfolding evict_loop
evict_locked js = evict_loop (length js) js

abbrev pub new_job : String → String → String → EnqueueOptions → ℕ → Job
new_job id job_type payload o now = record {
  id = id;
  job_type = job_type;
  payload = payload;
  status = pending;
  attempts = 0;
  max_attempts = o.max_attempts;
  next_run_at = now + o.delay;
  created_at = now;
  last_error = "";
}

pub data Result {ℓ} (A : Type ℓ) : Type ℓ where
  ok : A → Result A
  err : Error → Result A

-- The jobs after the call, and the new identifier.
unfoldable pub enqueue :
    List Job → String → String → Option String → List EnqueueOption → ℕ → List Job × Result String
enqueue js id job_type none opts now = (js, err marshal_error)
enqueue js id job_type (some payload) opts now = (
  evict_locked js
      ++ new_job id job_type payload (apply_options default_enqueue_options opts) now ∷ [],
  ok id,
)

abbrev is_pending : JobStatus → Bool
is_pending pending = true
is_pending _ = false

-- Pending, and not due after `now`.
abbrev pub is_eligible : ℕ → Job → Bool
is_eligible now j = is_pending j.status && leb j.next_run_at now

abbrev pub started : Job → Job
started j = record j { status = running; attempts = j.attempts + 1 }

unfoldable pub dequeue : List Job → ℕ → List Job × Option Job
dequeue [] now = ([], none)
dequeue (j ∷ js) now =
    let (js', found) = dequeue js now in
    if is_eligible now j then (started j ∷ js, some (started j)) else (j ∷ js', found)

unfoldable pub complete : List Job → String → List Job × Option Error
complete [] id = ([], some job_not_found)
complete (j ∷ js) id =
    let (js', e) = complete js id in
    if j.id == id then (record j { status = completed } ∷ js, none) else (j ∷ js', e)

-- `d *= 3` on an int64, kept as its bit pattern.
abbrev pub int64 : ℕ → ℕ
int64 d = d % 2 ^ 64

backoff_loop : ℕ → ℕ → ℕ
backoff_loop zero d = d
backoff_loop (suc rounds) d = backoff_loop rounds (int64 (d * 3))

-- The loop runs `attempt - 1` rounds, or none.
unfoldable pub backoff : ℕ → ℕ
unfolding backoff_loop
backoff attempt = backoff_loop (attempt - 1) 5_000_000_000

-- `t.Add(d)`: a bit pattern from 2^63 on stands for a negative duration.
unfoldable pub add_duration : ℕ → ℕ → ℕ
add_duration t d = if ltb d (2 ^ 63) then t + d else t - (2 ^ 64 - d)

abbrev pub failed_job : Job → String → ℕ → Job
failed_job j message now =
    if ltb j.attempts j.max_attempts
    then record j {
      last_error = message;
      status = pending;
      next_run_at = add_duration now (backoff j.attempts);
    }
    else record j { last_error = message; status = failed }

unfoldable pub fail : List Job → String → String → ℕ → List Job × Option Error
fail [] id message now = ([], some job_not_found)
fail (j ∷ js) id message now =
    let (js', e) = fail js id message now in
    if j.id == id then (failed_job j message now ∷ js, none) else (j ∷ js', e)
