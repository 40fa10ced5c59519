-- ===== src/Governance/RateLimiter/Window.antt =====
-- The rate limiter over a history of calls: Check, then RecordAction when it passes, the way
-- Engine.checkBehavior calls them (internal/governance/engine.go).
use nexixai_agentos.Prelude.{string_key}
use nexixai_agentos.Prelude.{
  ℕ, ◌+◌, ◌≤◌, String, ◌≡◌, refl, sym, ap, ◌∙◌, inl, inr, Option, none, some, List, [], ◌∷◌, ◌++◌,
  ◌==◌, if◌then◌else◌, ltb, select-append, select-select, arith, Bool-cases, ltb→lt, lt→ltb,
}
use nexixai_agentos.Prelude.Dict.{Dict, put}
use nexixai_agentos.Governance.Types.{RateLimit, ToolCategory, day, Reason}
use nexixai_agentos.Governance.LoopDetector.{alive, times}
use nexixai_agentos.Governance.RateLimiter.{RateLimiter, rate_bucket_key, check, record_action}
use nexixai_agentos.Governance.RateLimiter.Limits.{times-put}

pub record Call : Type 0 where
  pub agent : String
  pub category : ToolCategory
  pub at : ℕ

-- The calls that passed, oldest first, as bucket keys with times.
abbrev pub Log : Type 0
Log = List (String × ℕ)

abbrev pub log_times : Log → String → List ℕ
log_times [] k = []
log_times ((j, t) ∷ log) k = if j == k then t ∷ log_times log k else log_times log k

abbrev pub key_of : Call → String
key_of c = rate_bucket_key c.agent c.category

-- Engine.checkBehavior, as far as the rate limiter is concerned.
abbrev pub admit : Call → Log → RateLimiter × Option Reason → RateLimiter × Log
admit c log (r, none) = (record_action r c.agent c.category c.at, log ++ (key_of c, c.at) ∷ [])
admit c log (r, some reason) = (r, log)

module _ (limits : String → RateLimit) where
  unfoldable pub run : RateLimiter → Log → List Call → RateLimiter × Log
  run r log [] = (r, log)
  run r log (c ∷ cs) =
      let (r', log') = admit c log (check r c.agent c.category (limits c.agent) c.at) in
      run r' log' cs

pub log_times-append :
    (log : Log) (j k : String) (t : ℕ)
    → log_times (log ++ (j, t) ∷ []) k
      ≡ (if j == k then log_times log k ++ t ∷ [] else log_times log k)
log_times-append [] j k t = refl
log_times-append ((i, u) ∷ log) j k t = ground (arith, log_times-append log j k t)

-- The buckets hold the log's actions of the last day.
abbrev pub Tracks : ℕ → Dict String (List ℕ) → Log → Type 0
Tracks now m log = (k : String) → alive now day (times m k) ≡ alive now day (log_times log k)

pub alive-later :
    (now later w : ℕ) (ts : List ℕ)
    → now ≤ later
    → alive later w (alive now w ts) ≡ alive later w ts
alive-later now later w ts h =
    select-select (λ t. ltb later (t + w)) (λ t. ltb now (t + w)) ts
      (λ t p. lt→ltb now (t + w) (omega (arith, ltb→lt later (t + w) p)))

pub Tracks-later :
    (now later : ℕ) (m : Dict String (List ℕ)) (log : Log)
    → now ≤ later
    → Tracks now m log
    → Tracks later m log
Tracks-later now later m log h tracks k =
    sym (alive-later now later day (times m k) h)
    ∙ ap (alive later day) (tracks k)
    ∙ alive-later now later day (log_times log k) h

pub Tracks-put :
    (now : ℕ) (m : Dict String (List ℕ)) (log : Log) (key : String) (t : ℕ)
    → Tracks now m log
    → Tracks now (put m key (times m key ++ t ∷ [])) (log ++ (key, t) ∷ [])
Tracks-put now m log key t tracks k = elim (Bool-cases (key == k)) [
  | inl e ↦
      rw (times-put m key k (times m key ++ t ∷ []), log_times-append log key k t, e)
        (select-append (λ u. ltb now (u + day)) (times m key) (t ∷ [])
          ∙ ap (λ us. us ++ alive now day (t ∷ []))
              (ap (λ j. alive now day (times m j)) ((string_key.same_iff key k).0 e) ∙ tracks k)
          ∙ sym (select-append (λ u. ltb now (u + day)) (log_times log k) (t ∷ [])))
  | inr e ↦
      rw (times-put m key k (times m key ++ t ∷ []), log_times-append log key k t, e) (tracks k)
]
