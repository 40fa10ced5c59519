-- ===== src/Quota/Examples.antt =====
-- The theorems on the quota backends at concrete inputs.
use nexixai_agentos.Prelude.{string_key}
use nexixai_agentos.Prelude.{
  ℕ, ◌+◌, ◌*◌, ◌-◌, ◌≤◌, ◌==◌, if◌then◌else◌, ltb, leb, Option, none, String, ◌≡◌, List, [], ◌∷◌,
  arith,
}
use nexixai_agentos.Quota.MemoryBackend.{unit, new_memory_backend}
use nexixai_agentos.Quota.MemoryBackend.Window.{passed, after, passed_bounded}
use nexixai_agentos.Quota.MemoryBackend.Concurrency.{
  Op, starts, requests, acquires, releases, run, in_use, in_use-run_new,
}
use nexixai_agentos.Quota.TokenBudget.{TokenBudget, check, record_tokens}
use nexixai_agentos.Quota.TokenBudget.Spending.{used, record_tokens-used}

abbrev asked : List (String × ℕ)
asked = ("a", 100) ∷ ("b", 200) ∷ ("a", 300) ∷ ("a", 400) ∷ []

passed_bounded_example :
    passed 2 "a" (after 2 new_memory_backend (("a", 50) ∷ [])) asked * unit
    ≤ 2 * unit + (1000 - 60) * 2
passed_bounded_example =
    passed_bounded 2 60 1000 "a" (("a", 50) ∷ []) asked (omega arith, omega arith)
      (omega arith, (omega arith, (omega arith, (omega arith, omega arith))))

abbrev runs : List Op
runs =
    starts (("a", 3) ∷ ("b", 1) ∷ [])
    ∷ acquires "a"
    ∷ acquires "a"
    ∷ requests "b" 10
    ∷ releases "a"
    ∷ acquires "a"
    ∷ acquires "a"
    ∷ []

in_use-run_new_example :
    (in_use (run 5 2 new_memory_backend runs) "a" ≡ 2)
    × (in_use (run 5 2 new_memory_backend runs) "a" ≤ 3)
in_use-run_new_example = in_use-run_new 5 2 "a" runs

-- One tenant's window has ended, the other's has not.
abbrev two_windows : TokenBudget
two_windows = record {
  windows =
      ("a", record { tokens = 70; window_end = 5_000 })
      ∷ ("b", record { tokens = 90; window_end = 20 })
      ∷ [];
  limit = 100;
}

abbrev no_usage : String → ℕ → Option ℕ
no_usage tenant now = none

record_tokens-used_example :
    let after = (record_tokens no_usage two_windows "a" 40 1_000).0 in
    let sum = used no_usage two_windows "a" 1_000 + 40 in
    ((record_tokens no_usage two_windows "a" 40 1_000).1 ≡ leb sum 100)
    × ((other : String)
        → used no_usage after other 1_000
          ≡ (if "a" == other then sum else used no_usage two_windows other 1_000))
    × ((check no_usage after "a" 1_000).1 ≡ ltb sum 100)
record_tokens-used_example = record_tokens-used no_usage two_windows "a" 40 1_000 (omega arith)
