-- ===== src/Jobs.antt =====
-- internal/jobs: background jobs with retries, and the worker that runs them.
pub mod Queue
pub mod Worker
mod Examples
