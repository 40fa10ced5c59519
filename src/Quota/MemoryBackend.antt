-- ===== src/Quota/MemoryBackend.antt =====
-- internal/quota/limiter.go, MemoryBackend. Times are nanoseconds of a clock that does not run
-- backwards. A bucket's float of tokens is an exact count of 10^-9 tokens, so that
-- `dt * float64(qps)` is the elapsed nanoseconds times `qps`; rounding is not modelled.
pub mod Tokens
pub mod Window
pub mod Concurrency
use Prim.Native.Nat.{min}
use nexixai_agentos.Prelude.{string_key}
use nexixai_agentos.Prelude.{
  ℕ, ◌+◌, ◌-◌, ◌*◌, ◌%◌, String, Bool, true, false, not, Option, none, some, List, [], ◌∷◌, ◌&&◌,
  if◌then◌else◌, ltb, leb, eqb, is_some, get_or,
}
use nexixai_agentos.Prelude.Dict.{Dict, get, put, keep}

-- One token.
abbrev pub unit : ℕ
unit = 1_000_000_000

-- bucketIdleTTL, one hour.
abbrev pub bucket_idle_ttl : ℕ
bucket_idle_ttl = 3600 * unit

abbrev pub limiter_sweep_every : ℕ
limiter_sweep_every = 100

pub record Bucket : Type 0 where
  pub tokens : ℕ
  pub last : ℕ
  pub last_access : ℕ

pub record MemoryBackend : Type 0 where
  pub buckets : Dict String Bucket
  pub concurrent : Dict String ℕ
  pub allow_count : ℕ

unfoldable pub new_memory_backend : MemoryBackend
new_memory_backend = record { buckets = []; concurrent = []; allow_count = 0 }

abbrev is_fresh : ℕ → String → Bucket → Bool
is_fresh now k b = not (ltb (b.last_access + bucket_idle_ttl) now)

-- The concurrent entries are swept after the buckets.
unfoldable pub sweep_locked : MemoryBackend → ℕ → MemoryBackend
sweep_locked m now =
    let buckets = keep (is_fresh now) m.buckets in
    record m {
      buckets = buckets;
      concurrent =
          keep (λ k count. not (eqb count 0 && not (is_some (get buckets k)))) m.concurrent;
    }

abbrev pub full_bucket : ℕ → ℕ → Bucket
full_bucket qps now = record { tokens = qps * unit; last = now; last_access = now }

-- The tokens of a bucket at `now`: what it held, refilled up to `qps`.
abbrev pub refilled : ℕ → ℕ → Bucket → ℕ
refilled qps now b = min (b.tokens + (now - b.last) * qps) (qps * unit)

abbrev spend : MemoryBackend → String → ℕ → ℕ → MemoryBackend × Bool
spend m tenant tokens now =
    if ltb tokens unit
    then (
      record m {
        buckets = put m.buckets tenant (record { tokens = tokens; last = now; last_access = now });
      },
      false,
    )
    else (
      record m {
        buckets =
            put m.buckets tenant (record { tokens = tokens - unit; last = now; last_access = now });
      },
      true,
    )

abbrev pub swept : MemoryBackend → ℕ → MemoryBackend
swept m now =
    let counted = record m { allow_count = m.allow_count + 1 } in
    if eqb ((m.allow_count + 1) % limiter_sweep_every) 0 then sweep_locked counted now else counted

unfoldable pub allow_qps : MemoryBackend → String → ℕ → ℕ → MemoryBackend × Bool
allow_qps m tenant qps now =
    let m' = swept m now in
    spend m' tenant (refilled qps now (get_or (get m'.buckets tenant) (full_bucket qps now))) now

unfoldable pub try_inc_concurrent : MemoryBackend → String → ℕ → MemoryBackend × Bool
try_inc_concurrent m tenant limit =
    let cur : ℕ = get_or (get m.concurrent tenant) 0 in
    if leb limit cur
    then (m, false)
    else (record m { concurrent = put m.concurrent tenant (cur + 1) }, true)

-- The count does not fall below 0.
unfoldable pub dec_concurrent : MemoryBackend → String → MemoryBackend
dec_concurrent m tenant = record m {
  concurrent = put m.concurrent tenant (get_or (get m.concurrent tenant) 0 - 1);
}

abbrev pub put_all : Dict String ℕ → Dict String ℕ → Dict String ℕ
put_all m [] = m
put_all m ((k, v) ∷ counts) = put_all (put m k v) counts

unfoldable pub with_initial_concurrent : MemoryBackend → Dict String ℕ → MemoryBackend
with_initial_concurrent m counts = record m { concurrent = put_all m.concurrent counts }
