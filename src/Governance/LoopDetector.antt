-- ===== src/Governance/LoopDetector.antt =====
-- internal/governance/engine.go, InMemoryLoopDetector: attempts for each (agent, action, target).
-- `t.After(now.Add(-w))` is `now < t + w`.
use Prim.Native.String.{◌++◌ as str_append}
use nexixai_agentos.Prelude.{string_key}
use nexixai_agentos.Prelude.{
  ℕ, ◌+◌, String, Bool, Option, none, some, List, [], ◌∷◌, ◌++◌, if◌then◌else◌, ltb, leb, length,
  select, get_or,
}
use nexixai_agentos.Prelude.Dict.{Dict, get, put, size}
use nexixai_agentos.Governance.Types.{Reason, loop_detected, day}

pub record LoopDetector : Type 0 where
  pub attempts : Dict String (List ℕ)

unfoldable pub new_loop_detector : LoopDetector
new_loop_detector = record { attempts = [] }

unfoldable pub loop_key : String → String → String → String
loop_key agent action target =
    str_append agent (str_append "|" (str_append action (str_append "|" target)))

abbrev pub max_loop_buckets : ℕ
max_loop_buckets = 10000

-- The times that are after `now - window`.
abbrev pub alive : ℕ → ℕ → List ℕ → List ℕ
alive now window = select (λ t. ltb now (t + window))

-- `m[k]` of a map to slices: a missing key reads as the empty slice.
abbrev pub times : Dict String (List ℕ) → String → List ℕ
times m k = get_or (get m k) []

abbrev is_empty : List ℕ → Bool
is_empty [] = Bool.true
is_empty (t ∷ ts) = Bool.false

abbrev prune : ℕ → Dict String (List ℕ) → Dict String (List ℕ)
prune now [] = []
prune now ((k, ts) ∷ m) =
    let rest = prune now m in
    if is_empty (alive now day ts) then rest else (k, alive now day ts) ∷ rest

unfoldable pub record_attempt : LoopDetector → String → String → String → ℕ → LoopDetector
unfolding loop_key
record_attempt d agent action target t =
    let key = loop_key agent action target in
    let m = put d.attempts key (times d.attempts key ++ t ∷ []) in
    record { attempts = if ltb max_loop_buckets (size m) then prune t m else m }

-- The new state, and the message if a loop is detected.
unfoldable pub check :
    LoopDetector → String → String → String → ℕ → ℕ → ℕ → LoopDetector × Option Reason
unfolding loop_key
check d agent action target max_attempts window now =
    let key = loop_key agent action target in
    let live = alive now window (times d.attempts key) in
    let count : ℕ = length live in
    (
      record { attempts = put d.attempts key live },
      if leb max_attempts count
          then some (loop_detected agent action target count window max_attempts)
          else none,
    )
