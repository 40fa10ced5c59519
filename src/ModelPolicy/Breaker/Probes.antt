-- ===== src/ModelPolicy/Breaker/Probes.antt =====
-- Probes of the half-open circuit breaker (modelpolicy/resilience.go).
use Prim.Native.Nat.{max}
use nexixai_agentos.Prelude.{
  ℕ, ◌+◌, ◌-◌, ◌≤◌, ◌≡◌, refl, List, [], ◌∷◌, min, length, arith, if◌then◌else◌,
}
use nexixai_agentos.ModelPolicy.Breaker.{Breaker, opened, half_open, allow}

-- Requests at the given times, before any outcome is recorded: the breaker, and how many of them
-- were let through.
pub requests : Breaker → List ℕ → Breaker × ℕ
requests cb [] = (cb, 0)
requests cb (t ∷ ts) =
    let (cb', granted) = allow cb t in
    let (cb'', n) = requests cb' ts in (cb'', (if granted then 1 else 0) + n)

requests-half_open :
    (cb : Breaker) (ts : List ℕ)
    → cb.state ≡ half_open
    → (requests cb ts).1 ≡ min (length ts) (cb.cfg.half_open_max - cb.half_open_active)
unfolding requests allow
requests-half_open cb [] h = omega arith
requests-half_open cb (t ∷ ts) h = ground (
  arith,
  requests-half_open cb ts h,
  requests-half_open (record cb { half_open_active = cb.half_open_active + 1 }) ts h,
)

-- When the recovery timeout has passed, an open breaker lets through as many requests as the
-- half-open maximum, and at least one, until an outcome is recorded.
pub requests-opened :
    (cb : Breaker) (t : ℕ) (ts : List ℕ)
    → cb.state ≡ opened
    → cb.last_failure + cb.cfg.recovery_timeout ≤ t
    → (requests cb (t ∷ ts)).1 ≡ min (1 + length ts) (max 1 cb.cfg.half_open_max)
unfolding requests allow
requests-opened cb t ts h due =
    ground
      (arith, requests-half_open (record cb { state = half_open; half_open_active = 1 }) ts refl)

-- A half-open breaker whose probes are used up refuses every request, whatever the time, and does
-- not change: only a recorded outcome can move it.
pub requests-stuck :
    (cb : Breaker) (ts : List ℕ)
    → cb.state ≡ half_open
    → cb.cfg.half_open_max ≤ cb.half_open_active
    → requests cb ts ≡ (cb, 0)
unfolding requests allow
requests-stuck cb [] h full = refl
requests-stuck cb (t ∷ ts) h full = ground (arith, requests-stuck cb ts h full)
