-- ===== src/Governance/RateLimiter/Keys.antt =====
-- The bucket keys `agentID:category` of the rate limiter tell the agents and the two categories
-- apart (internal/governance/engine.go, rateBucketKey).
use Prim.Native.String.{◌++◌ as str_append, count}
use text.Mathlib.TextEquality.{eq_iff}
use text.Mathlib.TextLemmas.{append_assoc, append_inj, append_cancel_right, length-append}
use nexixai_agentos.Prelude.{String, ◌≡◌, sym, ◌∙◌, ◌⊎◌, inl, inr, ap, arith}
use nexixai_agentos.Governance.Types.{ToolCategory, category_observe, category_action}
use nexixai_agentos.Governance.RateLimiter.{rate_bucket_key}

abbrev pub IsCategory : ToolCategory → Type 0
IsCategory c = (c ≡ category_observe) ⊎ (c ≡ category_action)

endings_differ :
    (a b : String)
    → ¬ (str_append (str_append a ":o") "bserve" ≡ str_append (str_append b ":") "action")
endings_differ a b h =
    let fronts : count (str_append a ":o") ≡ count (str_append b ":") = omega (
      arith,
      ap count h,
      length-append (str_append a ":o") "bserve",
      length-append (str_append b ":") "action",
    ) in
    cc ((eq_iff "bserve" "action").1 (append_inj h fronts).1)

observe_ne_action :
    (a b : String) → ¬ (rate_bucket_key a category_observe ≡ rate_bucket_key b category_action)
unfolding rate_bucket_key
observe_ne_action a b h =
    endings_differ a b (append_assoc a ":o" "bserve" ∙ h ∙ sym (append_assoc b ":" "action"))

-- Buckets of one key belong to one agent and one category, when both categories are known ones.
pub rate_bucket_key-injective :
    (a b : String) (c d : ToolCategory)
    → IsCategory c
    → IsCategory d
    → rate_bucket_key a c ≡ rate_bucket_key b d
    → (a ≡ b) × (c ≡ d)
unfolding rate_bucket_key
rate_bucket_key-injective a b c d (inl p) (inl q) h = (
  append_cancel_right a b (str_append ":" c)
      (h ∙ ap (λ x. str_append b (str_append ":" x)) (q ∙ sym p)),
  p ∙ sym q,
)
rate_bucket_key-injective a b c d (inr p) (inr q) h = (
  append_cancel_right a b (str_append ":" c)
      (h ∙ ap (λ x. str_append b (str_append ":" x)) (q ∙ sym p)),
  p ∙ sym q,
)
rate_bucket_key-injective a b c d (inl p) (inr q) h =
    absurd (observe_ne_action a b (ap (rate_bucket_key a) (sym p) ∙ h ∙ ap (rate_bucket_key b) q))
rate_bucket_key-injective a b c d (inr p) (inl q) h =
    absurd
      (observe_ne_action b a (ap (rate_bucket_key b) (sym q) ∙ sym h ∙ ap (rate_bucket_key a) p))
