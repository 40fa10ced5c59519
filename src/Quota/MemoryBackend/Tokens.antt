-- ===== src/Quota/MemoryBackend/Tokens.antt =====
-- The token buckets as what each tenant has to spend (internal/quota/limiter.go, AllowQPS).
use native.Mathlib.Nat.{sub_self, zero-mul}
use nexixai_agentos.Prelude.{string_key}
use nexixai_agentos.Prelude.{
  ℕ, ◌+◌, ◌-◌, ◌*◌, ◌≤◌, ◌<◌, String, ◌≡◌, refl, ◌∙◌, ap₂, sym, inl, inr, Option, none, some, ◌==◌,
  if◌then◌else◌, ltb, leb, eqb, ◌%◌, get_or, arith, ltb→lt, Bool-cases,
}
use nexixai_agentos.Prelude.Dict.{get, get-put, get-keep, kept}
use nexixai_agentos.Quota.MemoryBackend.{
  unit, bucket_idle_ttl, limiter_sweep_every, Bucket, MemoryBackend, is_fresh, sweep_locked,
  full_bucket, refilled, spend, swept, allow_qps,
}

-- What a tenant has to spend at `now`: a tenant without a bucket has a full one.
abbrev pub available : MemoryBackend → String → ℕ → ℕ → ℕ
available m tenant qps now = refilled qps now (get_or (get m.buckets tenant) (full_bucket qps now))

-- A bucket that AllowQPS left by time `now`.
abbrev pub IsKept : ℕ → ℕ → Option Bucket → Type 0
IsKept qps now none = Unit
IsKept qps now (some b) = (b.last ≡ b.last_access) × (b.last ≤ now) × (b.tokens ≤ qps * unit)

abbrev pub Inv : ℕ → ℕ → MemoryBackend → Type 0
Inv qps now m = (tenant : String) → IsKept qps now (get m.buckets tenant)

hour_refills : (qps elapsed : ℕ) → bucket_idle_ttl ≤ elapsed → qps * unit ≤ elapsed * qps
hour_refills qps elapsed h = grind arith

-- A bucket idle for the whole TTL is full again, so dropping it changes nothing.
refilled-idle :
    (qps now : ℕ) (b : Bucket)
    → b.last ≡ b.last_access
    → b.last_access + bucket_idle_ttl < now
    → refilled qps now b ≡ qps * unit
refilled-idle qps now b same idle = omega (arith, hour_refills qps (now - b.last) (omega arith))

refilled-full : (qps now : ℕ) → refilled qps now (full_bucket qps now) ≡ qps * unit
refilled-full qps now = omega arith

refilled-kept :
    (qps now : ℕ) (tenant : String) (o : Option Bucket)
    → IsKept qps now o
    → refilled qps now (get_or (kept (is_fresh now) tenant o) (full_bucket qps now))
      ≡ refilled qps now (get_or o (full_bucket qps now))
refilled-kept qps now tenant none h = refl
refilled-kept qps now tenant (some b) h =
    elim (Bool-cases (ltb (b.last_access + bucket_idle_ttl) now)) [
      | inl idle ↦
          rw idle (refilled-full qps now ∙ sym (refilled-idle qps now b h.0 (ltb→lt _ _ idle)))
      | inr fresh ↦ rw fresh refl
    ]

IsKept-kept :
    (qps now : ℕ) (tenant : String) (o : Option Bucket)
    → IsKept qps now o
    → IsKept qps now (kept (is_fresh now) tenant o)
IsKept-kept qps now tenant none h = tt
IsKept-kept qps now tenant (some b) h = ground arith

-- The sweep of idle buckets leaves what each tenant has to spend as it is.
available-swept :
    (m : MemoryBackend) (tenant : String) (qps now : ℕ)
    → IsKept qps now (get m.buckets tenant)
    → available (swept m now) tenant qps now ≡ available m tenant qps now
unfolding sweep_locked
available-swept m tenant qps now h =
    elim (Bool-cases (eqb ((m.allow_count + 1) % limiter_sweep_every) 0)) [
      | inl e ↦
          rw (e, get-keep (is_fresh now) m.buckets tenant)
            (refilled-kept qps now tenant (get m.buckets tenant) h)
      | inr e ↦ rw e refl
    ]

IsKept-swept :
    (m : MemoryBackend) (tenant : String) (qps now : ℕ)
    → IsKept qps now (get m.buckets tenant)
    → IsKept qps now (get (swept m now).buckets tenant)
unfolding sweep_locked
IsKept-swept m tenant qps now h =
    elim (Bool-cases (eqb ((m.allow_count + 1) % limiter_sweep_every) 0)) [
      | inl e ↦
          rw (e, get-keep (is_fresh now) m.buckets tenant)
            (IsKept-kept qps now tenant (get m.buckets tenant) h)
      | inr e ↦ rw e h
    ]

-- A request passes exactly when its tenant has a token to spend.
pub allow_qps-decides :
    (m : MemoryBackend) (tenant : String) (qps now : ℕ)
    → Inv qps now m
    → (allow_qps m tenant qps now).1 ≡ leb unit (available m tenant qps now)
unfolding allow_qps
allow_qps-decides m tenant qps now inv =
    rw (← available-swept m tenant qps now (inv tenant)) (ground arith)

-- What a request leaves of the tokens that it found.
abbrev pub left_of : ℕ → ℕ
left_of tokens = if ltb tokens unit then tokens else tokens - unit

abbrev bucket_at : ℕ → ℕ → Bucket
bucket_at tokens now = record { tokens = tokens; last = now; last_access = now }

get-spend :
    (m : MemoryBackend) (tenant other : String) (now tokens : ℕ)
    → get (spend m tenant tokens now).0.buckets other
      ≡ (if tenant == other then some (bucket_at (left_of tokens) now) else get m.buckets other)
get-spend m tenant other now tokens = elim (Bool-cases (ltb tokens unit)) [
  | inl e ↦ rw e (get-put m.buckets tenant other (bucket_at tokens now))
  | inr e ↦ rw e (get-put m.buckets tenant other (bucket_at (tokens - unit) now))
]

refilled-now :
    (qps now tokens : ℕ) → tokens ≤ qps * unit → refilled qps now (bucket_at tokens now) ≡ tokens
refilled-now qps now tokens h =
    let none_yet : (now - now) * qps ≡ 0 = rw (sub_self now) (zero-mul qps) in
    omega (arith, none_yet)

spend-available :
    (m : MemoryBackend) (tenant other : String) (qps now tokens : ℕ)
    → tokens ≤ qps * unit
    → available (spend m tenant tokens now).0 other qps now
      ≡ (if tenant == other then left_of tokens else available m other qps now)
spend-available m tenant other qps now tokens capped = elim (Bool-cases (tenant == other)) [
  | inl e ↦
      rw (get-spend m tenant other now tokens, e)
        (refilled-now qps now (left_of tokens) (ground arith))
  | inr e ↦ rw (get-spend m tenant other now tokens, e) refl
]

spend-IsKept :
    (m : MemoryBackend) (tenant other : String) (qps now tokens : ℕ)
    → tokens ≤ qps * unit
    → IsKept qps now (get m.buckets other)
    → IsKept qps now (get (spend m tenant tokens now).0.buckets other)
spend-IsKept m tenant other qps now tokens capped h = elim (Bool-cases (tenant == other)) [
  | inl e ↦ rw (get-spend m tenant other now tokens, e) (refl, omega arith, ground arith)
  | inr e ↦ rw (get-spend m tenant other now tokens, e) h
]

-- A request that passes takes one token from its tenant; one that is refused takes none. No
-- request changes what another tenant has.
pub available-allow_qps :
    (m : MemoryBackend) (tenant other : String) (qps now : ℕ)
    → Inv qps now m
    → available (allow_qps m tenant qps now).0 other qps now ≡ (
        if tenant == other then left_of (available m tenant qps now) else available m other qps now)
unfolding allow_qps
available-allow_qps m tenant other qps now inv =
    let same = available-swept m tenant qps now (inv tenant) in
    let kept_other = available-swept m other qps now (inv other) in
    spend-available (swept m now) tenant other qps now (available (swept m now) tenant qps now)
      (omega arith)
    ∙ ap₂ (λ x y. if tenant == other then left_of x else y) same kept_other

pub allow_qps-Inv :
    (m : MemoryBackend) (tenant : String) (qps now : ℕ)
    → Inv qps now m
    → Inv qps now (allow_qps m tenant qps now).0
unfolding allow_qps
allow_qps-Inv m tenant qps now inv other =
    spend-IsKept (swept m now) tenant other qps now (available (swept m now) tenant qps now)
      (omega arith) (IsKept-swept m other qps now (inv other))
