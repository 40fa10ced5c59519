-- ===== src/Pii/Redactor.antt =====
-- internal/pii/redactor.go. A placeholder's bytes are the argument `bytes_of`.
pub mod Masking
use nexixai_agentos.Prelude.{string_key}
use nexixai_agentos.Prelude.{
  ℕ, ◌-◌, String, Bool, true, false, Option, none, some, List, [], ◌∷◌, ◌++◌, ◌==◌, if◌then◌else◌,
  ltb, leb, eqb, not, get_or, take, drop,
}
use nexixai_agentos.Prelude.Dict.{Dict, get}
use nexixai_agentos.Prelude.Sort.{sort_slice}
use nexixai_agentos.Pii.Patterns.{Bytes, PatternDef, builtin_patterns}
use nexixai_agentos.Pii.Detector.{Detection}

abbrev pub placeholders : Dict String String
placeholders =
    ("email", "[EMAIL]")
    ∷ ("phone", "[PHONE]")
    ∷ ("ssn", "[SSN]")
    ∷ ("credit_card", "[CREDIT_CARD]")
    ∷ ("ip_address", "[IP_ADDRESS]")
    ∷ []

-- A name that is no key reads as "", which is replaced.
unfoldable pub placeholder_of : String → String
placeholder_of name = get_or (get placeholders name) "[PII]"

abbrev priority_or : Option PatternDef → ℕ
priority_or none = 999
priority_or (some p) = p.priority

unfoldable pub priority_of : String → ℕ
priority_of name = priority_or (get builtin_patterns name)

-- By start, then the longer one first, then by priority.
unfoldable pub resolves_before : Detection → Detection → Bool
resolves_before a b =
    if not (eqb a.start b.start)
    then ltb a.start b.start
    else if not (eqb (a.end - a.start) (b.end - b.start))
    then ltb (b.end - b.start) (a.end - a.start)
    else ltb (priority_of a.pattern) (priority_of b.pattern)

-- The loop over the sorted detections, from `last_end`.
unfoldable pub keep_apart : ℕ → List Detection → List Detection
keep_apart last_end [] = []
keep_apart last_end (d ∷ ds) = elim (leb last_end d.start) [
  | true ↦ d ∷ keep_apart d.end ds
  | false ↦ keep_apart last_end ds
]

unfoldable pub resolve_overlaps : List Detection → List Detection
resolve_overlaps [] = []
resolve_overlaps (d ∷ []) = d ∷ []
resolve_overlaps (d ∷ e ∷ ds) = keep_apart 0 (sort_slice resolves_before (d ∷ e ∷ ds))

abbrev pub starts_after : Detection → Detection → Bool
starts_after a b = ltb b.start a.start

module _ (bytes_of : String → Bytes) where
  unfoldable pub replace : Bytes → Detection → Bytes
  replace text d = take d.start text ++ (bytes_of (placeholder_of d.pattern) ++ drop d.end text)

  unfoldable pub replace_all : Bytes → List Detection → Bytes
  replace_all text [] = text
  replace_all text (d ∷ ds) = replace_all (replace text d) ds

  unfoldable pub redact : Bytes → List Detection → Bytes
  redact text [] = text
  redact text (d ∷ ds) = replace_all text (sort_slice starts_after (resolve_overlaps (d ∷ ds)))
