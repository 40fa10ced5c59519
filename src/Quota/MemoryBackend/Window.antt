-- ===== src/Quota/MemoryBackend/Window.antt =====
-- How many requests pass in a span of time (internal/quota/limiter.go, AllowQPS).
use native.Mathlib.Nat.{add-mul}
use nexixai_agentos.Prelude.{string_key, ap}
use nexixai_agentos.Prelude.{
  ℕ, ◌+◌, ◌-◌, ◌*◌, ◌≤◌, String, ◌≡◌, ◌∙◌, Option, none, some, List, [], ◌∷◌, ◌==◌, ◌&&◌,
  if◌then◌else◌, get_or, arith,
}
use nexixai_agentos.Prelude.Dict.{get}
use nexixai_agentos.Quota.MemoryBackend.{
  unit, Bucket, MemoryBackend, new_memory_backend, allow_qps, refilled, full_bucket,
}
use nexixai_agentos.Quota.MemoryBackend.Tokens.{
  available, IsKept, Inv, allow_qps-decides, available-allow_qps, allow_qps-Inv,
}

-- Requests of tenants at the given times, and how many of those of one tenant passed.
pub passed : ℕ → String → MemoryBackend → List (String × ℕ) → ℕ
passed qps tenant m [] = 0
passed qps tenant m ((t, now) ∷ rs) =
    let (m', granted) = allow_qps m t qps now in
    (if t == tenant && granted then 1 else 0) + passed qps tenant m' rs

-- In the order of their times, from `start` to `end`.
abbrev pub InOrder : ℕ → ℕ → List (String × ℕ) → Type 0
InOrder start end [] = start ≤ end
InOrder start end ((t, now) ∷ rs) = (start ≤ now) × InOrder now end rs

start-le-end : (start end : ℕ) (rs : List (String × ℕ)) → InOrder start end rs → start ≤ end
start-le-end start end [] h = h
start-le-end start end ((t, now) ∷ rs) h = omega (arith, start-le-end now end rs h.1)

IsKept-later :
    (qps now later : ℕ) (o : Option Bucket) → now ≤ later → IsKept qps now o → IsKept qps later o
IsKept-later qps now later none h k = tt
IsKept-later qps now later (some b) h k = omega arith

split_span : (a b c qps : ℕ) → a ≤ b → b ≤ c → (c - a) * qps ≡ (b - a) * qps + (c - b) * qps
split_span a b c qps h k =
    let whole : c - a ≡ (b - a) + (c - b) = omega arith in
    ap (λ x. x * qps) whole ∙ add-mul (b - a) (c - b) qps

-- What a bucket holds grows by the refill at most.
refilled-later :
    (qps now later : ℕ) (o : Option Bucket)
    → now ≤ later
    → IsKept qps now o
    → refilled qps later (get_or o (full_bucket qps later))
      ≤ refilled qps now (get_or o (full_bucket qps now)) + (later - now) * qps
refilled-later qps now later none h k = omega arith
refilled-later qps now later (some b) h k = omega (arith, split_span b.last now later qps k.1 h)

spent :
    (qps start end : ℕ) (tenant : String) (m : MemoryBackend) (rs : List (String × ℕ))
    → Inv qps start m
    → InOrder start end rs
    → passed qps tenant m rs * unit ≤ available m tenant qps start + (end - start) * qps
unfolding passed
spent qps start end tenant m [] inv h = omega arith
spent qps start end tenant m ((t, now) ∷ rs) inv h =
    let later : Inv qps now m = λ j. IsKept-later qps start now (get m.buckets j) h.0 (inv j) in
    let m' = (allow_qps m t qps now).0 in
    ground (
      arith,
      spent qps now end tenant m' rs (allow_qps-Inv m t qps now later) h.1,
      refilled-later qps start now (get m.buckets tenant) h.0 (inv tenant),
      split_span start now end qps h.0 (start-le-end now end rs h.1),
      allow_qps-decides m t qps now later,
      available-allow_qps m t tenant qps now later,
      string_key.same_iff t tenant,
    )

-- The backend after requests.
pub after : ℕ → MemoryBackend → List (String × ℕ) → MemoryBackend
after qps m [] = m
after qps m ((t, now) ∷ rs) = after qps (allow_qps m t qps now).0 rs

after-Inv :
    (qps start end : ℕ) (m : MemoryBackend) (rs : List (String × ℕ))
    → Inv qps start m
    → InOrder start end rs
    → Inv qps end (after qps m rs)
unfolding after
after-Inv qps start end m [] inv h = λ j. IsKept-later qps start end (get m.buckets j) h (inv j)
after-Inv qps start end m ((t, now) ∷ rs) inv h =
    after-Inv qps now end (allow_qps m t qps now).0 rs
      (allow_qps-Inv m t qps now (λ j. IsKept-later qps start now (get m.buckets j) h.0 (inv j)))
      h.1

-- After any requests of any tenants in the order of their times, of the requests in a span of
-- time those of one tenant that pass are at most `qps` plus `qps` for each second of the span,
-- with every sweep of idle buckets included.
pub passed_bounded :
    (qps start end : ℕ) (tenant : String) (history rs : List (String × ℕ))
    → InOrder 0 start history
    → InOrder start end rs
    → passed qps tenant (after qps new_memory_backend history) rs * unit
      ≤ qps * unit + (end - start) * qps
unfolding new_memory_backend get
passed_bounded qps start end tenant history rs before h =
    let m = after qps new_memory_backend history in
    omega (
      arith,
      spent qps start end tenant m rs
          (after-Inv qps 0 start new_memory_backend history (λ j. tt) before) h,
    )
