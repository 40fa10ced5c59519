-- ===== src/Governance/RateLimiter/Sliding.antt =====
-- The limits hold of every sliding hour and day (internal/governance/engine.go).
use mathlib.Core.Path.{subst₂}
use nexixai_agentos.Prelude.{string_key}
use nexixai_agentos.Prelude.{
  ℕ, ◌+◌, ◌≤◌, String, ◌≡◌, refl, sym, ap, ◌∙◌, ◌⊎◌, inl, inr, true, List, [], ◌∷◌, ◌++◌, ◌==◌,
  if◌then◌else◌, ltb, length, length-append, length-select-le, select-append, arith, Bool-cases,
  subst,
}
use nexixai_agentos.Governance.Types.{
  RateLimit, ToolCategory, category_observe, category_action, hour, day,
}
use nexixai_agentos.Governance.LoopDetector.{alive, times}
use nexixai_agentos.Governance.RateLimiter.{RateLimiter, rate_bucket_key, hour_limit, day_count}
use nexixai_agentos.Governance.RateLimiter.Limits.{Within, hour_count, alive-hour-day}
use nexixai_agentos.Governance.RateLimiter.Keys.{IsCategory, rate_bucket_key-injective}
use nexixai_agentos.Governance.RateLimiter.Window.{
  Call, Log, log_times, key_of, Tracks, log_times-append, alive-later,
}

abbrev pub hour_of : Log → String → ToolCategory → ℕ → ℕ
hour_of log agent category now =
    length (alive now hour (log_times log (rate_bucket_key agent category)))

abbrev pub day_of : Log → String → ℕ → ℕ
day_of log agent now =
    length (alive now day (log_times log (rate_bucket_key agent category_observe)))
    + length (alive now day (log_times log (rate_bucket_key agent category_action)))

-- A limit of 0 is no limit.
abbrev pub AtMost : ℕ → ℕ → Type 0
AtMost limit n = (limit ≡ 0) ⊎ (n ≤ limit)

length-alive-le :
    (now later w : ℕ) (ts : List ℕ)
    → now ≤ later
    → length (alive later w ts) ≤ length (alive now w ts)
length-alive-le now later w ts h =
    rw (← alive-later now later w ts h) (length-select-le (λ t. ltb later (t + w)) (alive now w ts))

length-alive_snoc :
    (now w t : ℕ) (ts : List ℕ) → length (alive now w (ts ++ t ∷ [])) ≤ length (alive now w ts) + 1
length-alive_snoc now w t ts = rw (select-append (λ u. ltb now (u + w)) ts (t ∷ [])) (
    omega (
      arith,
      length-append (alive now w ts) (alive now w (t ∷ [])),
      length-select-le (λ u. ltb now (u + w)) (t ∷ []),
    ))

log_grows :
    (log : Log) (j k : String) (t w : ℕ)
    → length (alive t w (log_times (log ++ (j, t) ∷ []) k))
      ≤ length (alive t w (log_times log k)) + (if j == k then 1 else 0)
log_grows log j k t w = elim (Bool-cases (j == k)) [
  | inl e ↦ rw (log_times-append log j k t, e) (length-alive_snoc t w t (log_times log k))
  | inr e ↦ rw (log_times-append log j k t, e) (omega arith)
]

observe_apart : ¬ (category_observe ≡ category_action)
observe_apart h = cc ((string_key.same_iff "observe" "action").1 h)

module _ (limits : String → RateLimit) where
  pub record InLimits (now : ℕ) (log : Log) : Type 0 where
    pub hourly :
        (agent : String) (category : ToolCategory)
        → IsCategory category
        → AtMost (hour_limit category (limits agent)) (hour_of log agent category now)
    pub daily : (agent : String) → AtMost (limits agent).per_day (day_of log agent now)

  pub InLimits-later :
      (now later : ℕ) (log : Log) → now ≤ later → InLimits now log → InLimits later log
  InLimits-later now later log h bounds = record {
    hourly = λ agent category known. ground (
      arith,
      bounds.hourly agent category known,
      length-alive-le now later hour (log_times log (rate_bucket_key agent category)) h,
    );
    daily = λ agent. ground (
      arith,
      bounds.daily agent,
      length-alive-le now later day (log_times log (rate_bucket_key agent category_observe)) h,
      length-alive-le now later day (log_times log (rate_bucket_key agent category_action)) h,
    );
  }

  -- What a passing check says of the log.
  pub hour_count-eq :
      (r : RateLimiter) (log : Log) (agent : String) (category : ToolCategory) (now : ℕ)
      → Tracks now r.buckets log
      → hour_count r agent category now ≡ hour_of log agent category now
  hour_count-eq r log agent category now tracks =
      let key = rate_bucket_key agent category in
      ap length (
        sym (alive-hour-day now (times r.buckets key))
        ∙ ap (alive now hour) (tracks key)
        ∙ alive-hour-day now (log_times log key))

  pub day_count-eq :
      (r : RateLimiter) (log : Log) (agent : String) (now : ℕ)
      → Tracks now r.buckets log
      → day_count r.buckets agent now ≡ day_of log agent now
  unfolding day_count
  day_count-eq r log agent now tracks =
      rw
        (
          tracks (rate_bucket_key agent category_observe),
          tracks (rate_bucket_key agent category_action),
        )
        refl

  same_day :
      (c : Call) (log : Log) (agent : String)
      → c.agent ≡ agent
      → Within (limits c.agent).per_day (day_of log c.agent c.at)
      → Within (limits agent).per_day (day_of log agent c.at)
  same_day c log agent p = subst (λ a. Within (limits a).per_day (day_of log a c.at)) p

  pub InLimits-record :
      (c : Call) (log : Log)
      → IsCategory c.category
      → Within (hour_limit c.category (limits c.agent)) (hour_of log c.agent c.category c.at)
      → Within (limits c.agent).per_day (day_of log c.agent c.at)
      → InLimits c.at log
      → InLimits c.at (log ++ (key_of c, c.at) ∷ [])
  InLimits-record c log known hour_room day_room bounds = record {
    hourly = λ agent category k.
        let key = rate_bucket_key agent category in
        let grows = log_grows log (key_of c) key c.at hour in
        elim (Bool-cases (key_of c == key)) [
          | inl e ↦
              let (p, q) =
                rate_bucket_key-injective c.agent agent c.category category known k
                  ((string_key.same_iff (key_of c) key).0 e) in
              let room =
                subst₂ (λ a d. Within (hour_limit d (limits a)) (hour_of log a d c.at)) p q
                  hour_room in
              ground (arith, grows, room)
          | inr e ↦ ground (arith, grows, bounds.hourly agent category k)
        ];
    daily = λ agent.
        let observe = rate_bucket_key agent category_observe in
        let action = rate_bucket_key agent category_action in
        let observe_grows = log_grows log (key_of c) observe c.at day in
        let action_grows = log_grows log (key_of c) action c.at day in
        let owner = λ (d : ToolCategory) (k : IsCategory d).
          λ (e : (key_of c == rate_bucket_key agent d) ≡ true).
            rate_bucket_key-injective c.agent agent c.category d known k
              ((string_key.same_iff (key_of c) (rate_bucket_key agent d)).0 e) in
        elim (Bool-cases (key_of c == observe)) [
          | inl e ↦
              let (p, q) = owner category_observe (inl refl) e in
              elim (Bool-cases (key_of c == action)) [
                | inl f ↦ absurd (observe_apart (sym q ∙ (owner category_action (inr refl) f).1))
                | inr f ↦
                    ground (arith, observe_grows, action_grows, same_day c log agent p day_room)
              ]
          | inr e ↦ elim (Bool-cases (key_of c == action)) [
            | inl f ↦
                let (p, q) = owner category_action (inr refl) f in
                ground (arith, observe_grows, action_grows, same_day c log agent p day_room)
            | inr f ↦ ground (arith, observe_grows, action_grows, bounds.daily agent)
          ]
        ];
  }
