-- ===== src/Jobs/Queue/Retries.antt =====
-- Which job runs next, and the backoff between runs (internal/jobs/queue.go).
use nexixai_agentos.Prelude.{string_key}
use nexixai_agentos.Prelude.{
  ℕ, zero, suc, ◌+◌, ◌*◌, ◌^◌, ◌<◌, ◌≡◌, refl, inl, inr, Bool, true, false, ◌&&◌, Option, none,
  some, List, [], ◌∷◌, ◌++◌, All, arith, Bool-cases, eqb, eqb_iff, ltb,
}
use nexixai_agentos.Jobs.Queue.{Job, is_eligible, started, dequeue, backoff, add_duration}

-- What Dequeue gives: nothing, with no job eligible, or the first eligible job, started.
abbrev pub Dequeues : List Job → ℕ → List Job × Option Job → Type 0
Dequeues js now (js', none) = (js' ≡ js) × All (λ j. is_eligible now j ≡ false) js
Dequeues js now (js', some k) =
    (before : List Job) × (j : Job) × (after : List Job) × (js ≡ before ++ j ∷ after)
    × All (λ i. is_eligible now i ≡ false) before
    × (is_eligible now j ≡ true)
    × (k ≡ started j)
    × (js' ≡ before ++ k ∷ after)

Dequeues-cons :
    (j : Job) (js : List Job) (now : ℕ) (r : List Job × Option Job)
    → is_eligible now j ≡ false
    → Dequeues js now r
    → Dequeues (j ∷ js) now (j ∷ r.0, r.1)
Dequeues-cons j js now (js', none) skip (same, none_due) = (rw same refl, (skip, none_due))
Dequeues-cons j js now (js', some k) skip (before, i, after, split, early, due, run, result) =
    (j ∷ before, i, after, rw split refl, (skip, early), due, run, rw result refl)

-- Dequeue returns nothing and changes nothing if no job is pending and due; otherwise it marks the
-- first such job as running with one more attempt, returns it, and leaves the others in place.
pub dequeue-Dequeues : (js : List Job) (now : ℕ) → Dequeues js now (dequeue js now)
unfolding dequeue
dequeue-Dequeues [] now = (refl, tt)
dequeue-Dequeues (j ∷ js) now = elim (Bool-cases (is_eligible now j)) [
  | inl due ↦ rw due ([], j, js, refl, tt, due, refl, refl)
  | inr skip ↦ rw skip (Dequeues-cons j js now (dequeue js now) skip (dequeue-Dequeues js now))
]

exact_at : ℕ → Bool
exact_at k = eqb (backoff (k + 1)) (5_000_000_000 * 3 ^ k) && ltb (5_000_000_000 * 3 ^ k) (2 ^ 63)

-- The numbers of attempts up to `n`, checked by evaluation.
exact_up_to : ℕ → Bool
exact_up_to zero = true
exact_up_to (suc k) = exact_up_to k && exact_at k

exact_up_to_20 : exact_up_to 20 ≡ true
unfolding exact_up_to exact_at backoff
exact_up_to_20 = refl

exact_at-below : (n : ℕ) {k : ℕ} → exact_up_to n ≡ true → k < n → exact_at k ≡ true
unfolding exact_up_to
exact_at-below zero h below = elim below [ ]
exact_at-below (suc n) {k} h below = elim (Bool-cases (eqb k n)) [
  | inl last ↦ rw ((eqb_iff k n).0 last) (ground arith)
  | inr less ↦ exact_at-below n (ground arith) (ground arith)
]

exact_at_sound :
    (k : ℕ)
    → exact_at k ≡ true
    → (backoff (k + 1) ≡ 5_000_000_000 * 3 ^ k) × (5_000_000_000 * 3 ^ k < 2 ^ 63)
unfolding exact_at
exact_at_sound k h = ground arith

-- Up to 20 attempts the int64 duration does not overflow: the next run is due 5 s times 3 to the
-- attempts before this one after the failure.
pub backoff_exact :
    (k now : ℕ) → k < 20 → add_duration now (backoff (k + 1)) ≡ now + 5_000_000_000 * 3 ^ k
unfolding add_duration
backoff_exact k now h =
    let (exact, fits) = exact_at_sound k (exact_at-below 20 exact_up_to_20 h) in
    rw exact (ground arith)
