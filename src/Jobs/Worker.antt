-- ===== src/Jobs/Worker.antt =====
-- internal/jobs/worker.go: one poll of the queue. Handlers are parameters: a handler is given the
-- job and returns an error message or nothing. Start, Stop and the ticker are not modelled.
pub mod Runs
use nexixai_agentos.Prelude.{string_key}
use nexixai_agentos.Prelude.{ℕ, String, Option, none, some, List}
use nexixai_agentos.Prelude.Dict.{Dict, get}
use nexixai_agentos.Jobs.Queue.{Job, dequeue, complete, fail}

abbrev pub Handler : Type 0
Handler = Job → Option String

abbrev settle : List Job → Job → Option String → ℕ → List Job
settle js j none now = (complete js j.id).0
settle js j (some message) now = (fail js j.id message now).0

abbrev handled : List Job → Job → Option Handler → ℕ → List Job
handled js j none now = (fail js j.id "no handler registered for job type" now).0
handled js j (some handler) now = settle js j (handler j) now

abbrev polled : Dict String Handler → List Job × Option Job → ℕ → List Job
polled handlers (js, none) now = js
polled handlers (js, some j) now = handled js j (get handlers j.job_type) now

-- The times are those of the dequeue and of the outcome.
unfoldable pub poll : Dict String Handler → List Job → ℕ → ℕ → List Job
poll handlers js now later = polled handlers (dequeue js now) later
