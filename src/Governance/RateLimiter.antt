-- ===== src/Governance/RateLimiter.antt =====
-- internal/governance/engine.go, InMemoryRateLimiter: action times for each agent and category.
pub mod Limits
pub mod Keys
pub mod Window
pub mod Sliding
pub mod History
use Prim.Native.String.{◌++◌ as str_append}
use nexixai_agentos.Prelude.{string_key}
use nexixai_agentos.Prelude.{
  ℕ, zero, suc, ◌+◌, ◌/◌, String, Option, none, some, List, [], ◌∷◌, ◌++◌, ◌&&◌, ◌==◌,
  if◌then◌else◌, ltb, leb, length,
}
use nexixai_agentos.Prelude.Dict.{Dict, put, remove, size}
use nexixai_agentos.Governance.Types.{
  Reason, hourly_limit, daily_limit, RateLimit, ToolCategory, category_observe, category_action,
  hour, day,
}
use nexixai_agentos.Governance.LoopDetector.{alive, times}

pub record RateLimiter : Type 0 where
  pub buckets : Dict String (List ℕ)

unfoldable pub new_rate_limiter : RateLimiter
new_rate_limiter = record { buckets = [] }

unfoldable pub rate_bucket_key : String → ToolCategory → String
rate_bucket_key agent category = str_append agent (str_append ":" category)

abbrev pub max_rate_buckets : ℕ
max_rate_buckets = 10000

-- A bucket's key with its latest time; the zero `time.Time` is 0.
abbrev Entry : Type 0
Entry = String × ℕ

abbrev latest : ℕ → List ℕ → ℕ
latest acc [] = acc
latest acc (t ∷ ts) = latest (if ltb acc t then t else acc) ts

abbrev entries : Dict String (List ℕ) → List Entry
entries [] = []
entries ((k, ts) ∷ m) = (k, latest 0 ts) ∷ entries m

-- The inner loop: the first of the least entries.
abbrev oldest : Entry → List Entry → Entry
oldest best [] = best
oldest best (e ∷ es) = oldest (if ltb e.1 best.1 then e else best) es

-- The swap: `e` takes the place of the entry of key `k`.
abbrev swap_in : String → Entry → List Entry → List Entry
swap_in k e [] = []
swap_in k e (x ∷ xs) = if x.0 == k then e ∷ xs else x ∷ swap_in k e xs

-- The outer loop, over the entries from place i on, with the rounds that are left.
evict_loop : ℕ → List Entry → Dict String (List ℕ) → Dict String (List ℕ)
evict_loop zero es m = m
evict_loop (suc n) [] m = m
evict_loop (suc n) (e ∷ es) m =
    let (k, t) = oldest e es in evict_loop n (swap_in k e es) (remove m k)

unfoldable pub evict_oldest : Dict String (List ℕ) → Dict String (List ℕ)
unfolding evict_loop
evict_oldest m =
    let tenth : ℕ = size m / 10 in
    let to_remove : ℕ = if ltb tenth 1 then 1 else tenth in evict_loop to_remove (entries m) m

unfoldable pub record_action : RateLimiter → String → ToolCategory → ℕ → RateLimiter
unfolding rate_bucket_key
record_action r agent category t =
    let key = rate_bucket_key agent category in
    let m = put r.buckets key (times r.buckets key ++ t ∷ []) in
    record { buckets = if ltb max_rate_buckets (size m) then evict_oldest m else m }

-- The limit of the category if one is set, else `PerHour`.
unfoldable pub hour_limit : ToolCategory → RateLimit → ℕ
hour_limit category limits =
    if category == category_observe && ltb 0 limits.observe_per_hour
    then limits.observe_per_hour
    else if category == category_action && ltb 0 limits.action_per_hour
    then limits.action_per_hour
    else limits.per_hour

-- The loops that count the day's actions over both categories.
unfoldable pub day_count : Dict String (List ℕ) → String → ℕ → ℕ
unfolding rate_bucket_key
day_count m agent now =
    length (alive now day (times m (rate_bucket_key agent category_observe)))
    + length (alive now day (times m (rate_bucket_key agent category_action)))

daily : Dict String (List ℕ) → String → RateLimit → ℕ → Option Reason
unfolding day_count
daily m agent limits now =
    let count = day_count m agent now in
    if ltb 0 limits.per_day && leb limits.per_day count
    then some (daily_limit agent count limits.per_day)
    else none

-- The new state, and the message if a limit is reached.
unfoldable pub check :
    RateLimiter → String → ToolCategory → RateLimit → ℕ → RateLimiter × Option Reason
unfolding rate_bucket_key hour_limit daily
check r agent category limits now =
    let key = rate_bucket_key agent category in
    let live = alive now day (times r.buckets key) in
    let hour_count = length (alive now hour live) in
    let m = put r.buckets key live in
    let limit = hour_limit category limits in
    (
      record { buckets = m },
      if ltb 0 limit && leb limit hour_count
          then some (hourly_limit agent category hour_count limit)
          else daily m agent limits now,
    )
