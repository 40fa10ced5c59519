-- ===== src/Pii/Detector.antt =====
-- internal/pii/detector.go. `find_all` stands for the compiled regular expression of each pattern:
-- the matches of FindAllStringIndex, each from its start to before its end.
use nexixai_agentos.Prelude.{string_key}
use nexixai_agentos.Prelude.{
  ℕ, zero, suc, ◌+◌, ◌-◌, String, Bool, true, false, not, Option, none, some, List, [], ◌∷◌, ◌++◌,
  ◌&&◌, ◌||◌, if◌then◌else◌, ltb, leb, take, drop, select,
}
use nexixai_agentos.Prelude.Dict.{listed}
use nexixai_agentos.Prelude.Sort.{sort_slice}
use nexixai_agentos.Pii.Patterns.{Bytes, PatternDef, pattern_order}

pub record Detection : Type 0 where
  pub pattern : String
  pub matched : Bytes
  pub start : ℕ
  pub end : ℕ

-- All patterns for no names, and else those named, in the order of priority.
unfoldable pub new_detector : List String → List PatternDef
new_detector [] = pattern_order
new_detector (p ∷ ps) = select (λ (d : PatternDef). listed (p ∷ ps) d.name) pattern_order

-- claimed, a []bool of the text's length; a match is read and claimed in bounds.
abbrev pub Claimed : Type 0
Claimed = ℕ → Bool

-- The loop that looks for a claimed byte among `n` from `start`.
abbrev pub overlaps : Claimed → ℕ → ℕ → Bool
overlaps claimed start zero = false
overlaps claimed start (suc n) = claimed start || overlaps claimed (start + 1) n

abbrev pub claim : Claimed → ℕ → ℕ → Claimed
claim claimed start end i = leb start i && ltb i end || claimed i

-- `text[start:end]`
abbrev pub slice : Bytes → ℕ → ℕ → Bytes
slice text start end = take (end - start) (drop start text)

abbrev pub is_valid : Option (Bytes → Bool) → Bytes → Bool
is_valid none matched = true
is_valid (some validate) matched = validate matched

abbrev pub Scanned : Type 0
Scanned = Claimed × List Detection

-- One match of a pattern.
unfoldable pub scan_match : Bytes → PatternDef → Scanned → ℕ × ℕ → Scanned
scan_match text pat (claimed, results) (start, end) =
    if overlaps claimed start (end - start) || not (is_valid pat.validate (slice text start end))
    then (claimed, results)
    else (
      claim claimed start end,
      results
          ++ record { pattern = pat.name; matched = slice text start end; start = start; end = end }
            ∷ [],
    )

unfoldable pub scan_matches : Bytes → PatternDef → Scanned → List (ℕ × ℕ) → Scanned
scan_matches text pat s [] = s
scan_matches text pat s (m ∷ ms) = scan_matches text pat (scan_match text pat s m) ms

abbrev pub starts_before : Detection → Detection → Bool
starts_before a b = ltb a.start b.start

module _ (find_all : String → Bytes → List (ℕ × ℕ)) where
  unfoldable pub scan_patterns : Bytes → Scanned → List PatternDef → Scanned
  scan_patterns text s [] = s
  scan_patterns text s (pat ∷ pats) =
      scan_patterns text (scan_matches text pat s (find_all pat.name text)) pats

  unfoldable pub scan : List PatternDef → Bytes → List Detection
  scan enabled [] = []
  scan enabled (b ∷ text) =
      sort_slice starts_before (scan_patterns (b ∷ text) ((λ i. false), []) enabled).1
