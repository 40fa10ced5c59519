-- ===== src/Governance/RateLimiter/History.antt =====
-- The rate limiter after any history of calls (internal/governance/engine.go).
use nexixai_agentos.Prelude.{string_key}
use nexixai_agentos.Prelude.{
  ℕ, ◌≤◌, String, ◌≡◌, refl, inl, inr, true, Option, none, some, List, [], ◌∷◌, ◌++◌, ltb, length,
  arith, Bool-cases, ltb→lt, ◌∙◌,
}
use nexixai_agentos.Prelude.Dict.{
  get, put, size, size-put-present, present, present-le-length, listed,
}
use nexixai_agentos.Governance.Types.{RateLimit, Reason}
use nexixai_agentos.Governance.LoopDetector.{times}
use nexixai_agentos.Governance.RateLimiter.{
  RateLimiter, check, record_action, new_rate_limiter, max_rate_buckets,
}
use nexixai_agentos.Governance.RateLimiter.Limits.{check-none_iff, times-put-alive}
use nexixai_agentos.Governance.RateLimiter.Keys.{IsCategory}
use nexixai_agentos.Governance.RateLimiter.Window.{
  Call, Log, key_of, admit, run, Tracks, Tracks-later, Tracks-put,
}
use nexixai_agentos.Governance.RateLimiter.Sliding.{
  InLimits, InLimits-later, InLimits-record, hour_count-eq, day_count-eq,
}

-- Calls in the order of their times, of known categories, in the buckets listed.
abbrev pub IsHistory : List String → ℕ → List Call → Type 0
IsHistory ks last [] = Unit
IsHistory ks last (c ∷ cs) =
    (last ≤ c.at) × IsCategory c.category × (listed ks (key_of c) ≡ true) × IsHistory ks c.at cs

abbrev pub last_time : ℕ → List Call → ℕ
last_time last [] = last
last_time last (c ∷ cs) = last_time c.at cs

module _ (limits : String → RateLimit) (ks : List String) where
  record Inv (now : ℕ) (r : RateLimiter) (log : Log) : Type 0 where
    sized : size r.buckets ≤ present ks r.buckets
    tracks : Tracks now r.buckets log
    bounded : InLimits limits now log

  Inv-later :
      (now later : ℕ) (r : RateLimiter) (log : Log) → now ≤ later → Inv now r log → Inv later r log
  Inv-later now later r log h inv = record {
    sized = inv.sized;
    tracks = Tracks-later now later r.buckets log h inv.tracks;
    bounded = InLimits-later limits now later log h inv.bounded;
  }

  check-Inv :
      (c : Call) (r : RateLimiter) (log : Log)
      → listed ks (key_of c) ≡ true
      → Inv c.at r log
      → Inv c.at (check r c.agent c.category (limits c.agent) c.at).0 log
  unfolding check
  check-Inv c r log member inv = record {
    sized = size-put-present ks r.buckets (key_of c) _ member inv.sized;
    tracks = λ k. times-put-alive r.buckets (key_of c) k c.at ∙ inv.tracks k;
    bounded = inv.bounded;
  }

  record_action-Inv :
      (c : Call) (r : RateLimiter) (log : Log)
      → listed ks (key_of c) ≡ true
      → length ks ≤ max_rate_buckets
      → Inv c.at r log
      → InLimits limits c.at (log ++ (key_of c, c.at) ∷ [])
      → Inv c.at (record_action r c.agent c.category c.at) (log ++ (key_of c, c.at) ∷ [])
  unfolding record_action
  record_action-Inv c r log member room inv bounds =
      let m = put r.buckets (key_of c) (times r.buckets (key_of c) ++ c.at ∷ []) in
      let sized =
        size-put-present ks r.buckets (key_of c) (times r.buckets (key_of c) ++ c.at ∷ []) member
          inv.sized in
      elim (Bool-cases (ltb max_rate_buckets (size m))) [
        | inl full ↦ absurd (omega (arith, ltb→lt _ _ full, sized, present-le-length ks m))
        | inr fits ↦ rw fits (record {
          sized = sized;
          tracks = Tracks-put c.at r.buckets log (key_of c) c.at inv.tracks;
          bounded = bounds;
        })
      ]

  admit-Inv :
      (c : Call) (log : Log) (r : RateLimiter) (o : Option Reason)
      → listed ks (key_of c) ≡ true
      → length ks ≤ max_rate_buckets
      → Inv c.at r log
      → (o ≡ none → InLimits limits c.at (log ++ (key_of c, c.at) ∷ []))
      → let (r', log') = admit c log (r, o) in Inv c.at r' log'
  admit-Inv c log r none member room inv bounds =
      record_action-Inv c r log member room inv (bounds refl)
  admit-Inv c log r (some reason) member room inv bounds = inv

  run-Inv :
      (last : ℕ) (r : RateLimiter) (log : Log) (cs : List Call)
      → length ks ≤ max_rate_buckets
      → IsHistory ks last cs
      → Inv last r log
      → let (r', log') = run limits r log cs in Inv (last_time last cs) r' log'
  unfolding run
  run-Inv last r log [] room h inv = inv
  run-Inv last r log (c ∷ cs) room (order, known, member, rest) inv =
      let now = Inv-later last c.at r log order inv in
      let checked = check r c.agent c.category (limits c.agent) c.at in
      let passes = check-none_iff r c.agent c.category (limits c.agent) c.at in
      let next =
        admit-Inv c log checked.0 checked.1 member room (check-Inv c r log member now) (λ e.
          let (hour_room, day_room) = passes.0 e in
          InLimits-record limits c log known
            (rw (← hour_count-eq limits r log c.agent c.category c.at now.tracks) hour_room)
            (rw (← day_count-eq limits r log c.agent c.at now.tracks) day_room) now.bounded) in
      run-Inv c.at _ _ cs room rest next

  -- Whatever calls are made, in the order of their times, by agents with known categories and no
  -- more buckets than the cap: at the last call and at every later moment, the calls that passed
  -- in the hour before it are within each agent's hourly limit for each category, and those of
  -- the day before it, over both categories, within its daily limit (0 is no limit).
  pub run-InLimits :
      (cs : List Call) (now : ℕ)
      → length ks ≤ max_rate_buckets
      → IsHistory ks 0 cs
      → last_time 0 cs ≤ now
      → InLimits limits now (run limits new_rate_limiter [] cs).1
  unfolding new_rate_limiter get
  run-InLimits cs now room h after =
      InLimits-later limits (last_time 0 cs) now _ after
        (run-Inv 0 new_rate_limiter [] cs room h (record {
          sized = omega arith;
          tracks = λ k. refl;
          bounded = record { hourly = λ a c k. inr (omega arith); daily = λ a. inr (omega arith) };
        })).bounded
