-- ===== src/Pii/Examples.antt =====
-- The theorems on personal data at concrete inputs.
use nexixai_agentos.Prelude.{string_key}
use nexixai_agentos.Prelude.{
  ℕ, String, ◌≡◌, refl, Bool, true, false, List, [], ◌∷◌, ◌++◌, ◌==◌, All, arith,
}
use nexixai_agentos.Pii.Patterns.{Bytes, pattern_order, luhn_sum, luhn_valid}
use nexixai_agentos.Pii.Detector.{Detection, scan}
use nexixai_agentos.Pii.Chain.{IsInside, IsChain}
use nexixai_agentos.Pii.Redactor.{resolves_before, keep_apart, resolve_overlaps, redact}
use nexixai_agentos.Pii.Redactor.Masking.{masked, redact-masked}
use nexixai_agentos.Pii.Claims.{IsMatch}
use nexixai_agentos.Pii.Scanning.{SeenBy}
use nexixai_agentos.Pii.Detections.{scan-SeenBy}
use nexixai_agentos.Pii.Composed.{redact-scan}
use nexixai_agentos.Pii.Luhn.{luhn_valid-one_digit}

abbrev message : Bytes
message = 1 ∷ 2 ∷ 3 ∷ 4 ∷ 5 ∷ 6 ∷ []

abbrev stars : String → Bytes
stars s = 42 ∷ 42 ∷ []

abbrev found_by : Bool → List (ℕ × ℕ)
found_by true = (0, 2) ∷ (3, 5) ∷ []
found_by false = (1, 4) ∷ []

-- The email pattern has two matches, every other one has one that overlaps both.
abbrev matches : String → Bytes → List (ℕ × ℕ)
matches name text = found_by (name == "email")

found_by-IsMatch : (b : Bool) → All (IsMatch message) (found_by b)
found_by-IsMatch true = omega arith
found_by-IsMatch false = omega arith

scan-SeenBy_example :
    IsChain 0 (scan matches pattern_order message)
    × All (IsInside message) (scan matches pattern_order message)
    × All (SeenBy matches message (scan matches pattern_order message)) pattern_order
scan-SeenBy_example =
    scan-SeenBy matches pattern_order message (λ name. found_by-IsMatch (name == "email"))

redact-scan_example :
    redact stars message (scan matches pattern_order message)
    ≡ masked stars message 0 (scan matches pattern_order message)
redact-scan_example =
    redact-scan matches stars pattern_order message (λ name. found_by-IsMatch (name == "email"))

-- The first is longer, but starts later.
abbrev overlapping : List Detection
overlapping =
    record { pattern = "email"; matched = 2 ∷ 3 ∷ 4 ∷ 5 ∷ []; start = 1; end = 5 }
    ∷ record { pattern = "phone"; matched = 1 ∷ 2 ∷ []; start = 0; end = 2 }
    ∷ []

redact-masked_example :
    redact stars message overlapping ≡ masked stars message 0 (resolve_overlaps overlapping)
redact-masked_example = redact-masked stars message overlapping (omega arith)

-- The card number 4539 1488 0343 6467 and one with another first digit.
abbrev card_rest : Bytes
card_rest =
    b'5' ∷ b'3' ∷ b'9' ∷ b' ' ∷ b'1' ∷ b'4' ∷ b'8' ∷ b'8' ∷ b' ' ∷ b'0' ∷ b'3' ∷ b'4' ∷ b'3' ∷ b' '
    ∷ b'6' ∷ b'4' ∷ b'6' ∷ b'7' ∷ []

card_valid : luhn_valid ([] ++ b'4' ∷ card_rest) ≡ true
unfolding luhn_valid luhn_sum
card_valid = refl

luhn_valid-one_digit_example : luhn_valid ([] ++ b'7' ∷ card_rest) ≡ false
luhn_valid-one_digit_example =
    luhn_valid-one_digit [] card_rest b'4' b'7' refl refl (omega arith) card_valid

longer_dropped :
    resolve_overlaps overlapping
    ≡ record { pattern = "phone"; matched = 1 ∷ 2 ∷ []; start = 0; end = 2 } ∷ []
unfolding resolve_overlaps resolves_before keep_apart
longer_dropped = refl
