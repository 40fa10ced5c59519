-- ===== src/Governance/RateLimiter/Limits.antt =====
-- When InMemoryRateLimiter.Check lets a call pass, in terms of the stored action times.
use nexixai_agentos.Prelude.{string_key}
use nexixai_agentos.Prelude.{
  ℕ, ◌+◌, ◌<◌, String, ◌≡◌, refl, ap, ◌↔◌, ◌⊎◌, inl, inr, none, some, List, ◌==◌, if◌then◌else◌,
  ◌∙◌, ◌&&◌, leb, ltb, length, select-select, arith, Bool-cases, lt→ltb, ltb→lt,
}
use nexixai_agentos.Prelude.Dict.{Dict, put, get-put}
use nexixai_agentos.Governance.Types.{
  RateLimit, ToolCategory, category_observe, category_action, hour, day,
}
use nexixai_agentos.Governance.LoopDetector.{alive, times}
use nexixai_agentos.Governance.RateLimiter.{
  RateLimiter, rate_bucket_key, hour_limit, day_count, daily, check,
}

-- A limit of 0 is no limit.
abbrev pub Within : ℕ → ℕ → Type 0
Within limit n = (limit ≡ 0) ⊎ (n < limit)

-- The actions of the last hour in the bucket of the agent and category.
abbrev pub hour_count : RateLimiter → String → ToolCategory → ℕ → ℕ
hour_count r agent category now =
    length (alive now hour (times r.buckets (rate_bucket_key agent category)))

pub alive-day-day : (now : ℕ) (ts : List ℕ) → alive now day (alive now day ts) ≡ alive now day ts
alive-day-day now ts = select-select (λ t. ltb now (t + day)) (λ t. ltb now (t + day)) ts (λ t h. h)

pub alive-hour-day : (now : ℕ) (ts : List ℕ) → alive now hour (alive now day ts) ≡ alive now hour ts
alive-hour-day now ts =
    select-select (λ t. ltb now (t + hour)) (λ t. ltb now (t + day)) ts
      (λ t h. lt→ltb now (t + day) (omega (arith, ltb→lt now (t + hour) h)))

pub times-put :
    (m : Dict String (List ℕ)) (k j : String) (ts : List ℕ)
    → times (put m k ts) j ≡ (if k == j then ts else times m j)
times-put m k j ts = rw (get-put m k j ts) (ground arith)

-- Dropping what is older than a day from one bucket changes no count of the day.
pub times-put-alive :
    (m : Dict String (List ℕ)) (k j : String) (now : ℕ)
    → alive now day (times (put m k (alive now day (times m k))) j) ≡ alive now day (times m j)
times-put-alive m k j now = elim (Bool-cases (k == j)) [
  | inl e ↦
      rw (times-put m k j _, e)
        (alive-day-day now (times m k)
          ∙ ap (λ x. alive now day (times m x)) ((string_key.same_iff k j).0 e))
  | inr e ↦ rw (times-put m k j _, e) refl
]

pub day_count-put-alive :
    (m : Dict String (List ℕ)) (k agent : String) (now : ℕ)
    → day_count (put m k (alive now day (times m k))) agent now ≡ day_count m agent now
unfolding day_count
day_count-put-alive m k agent now = rw (
  times-put-alive m k (rate_bucket_key agent category_observe) now,
  times-put-alive m k (rate_bucket_key agent category_action) now,
)

two_limits {ℓ} :
    {A : Type ℓ} (limit count per_day total : ℕ) (x y : A)
    → ((if ltb 0 limit && leb limit count
          then some x
          else if ltb 0 per_day && leb per_day total
          then some y
          else none)
        ≡ none)
      ↔ (Within limit count × Within per_day total)
two_limits limit count per_day total x y = ground arith

-- A call passes exactly when the hour's count of its bucket is below the hourly limit and the
-- day's count over both categories is below the daily limit, where a limit of 0 is none.
pub check-none_iff :
    (r : RateLimiter) (agent : String) (category : ToolCategory) (limits : RateLimit) (now : ℕ)
    → ((check r agent category limits now).1 ≡ none) ↔ (
        Within (hour_limit category limits) (hour_count r agent category now)
        × Within limits.per_day (day_count r.buckets agent now))
unfolding check daily
check-none_iff r agent category limits now =
    let key = rate_bucket_key agent category in
    rw (alive-hour-day now (times r.buckets key), day_count-put-alive r.buckets key agent now)
      (two_limits (hour_limit category limits) (hour_count r agent category now) limits.per_day
        (day_count r.buckets agent now) _ _)
