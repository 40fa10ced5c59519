-- ===== src/Tools/MathEval/Lengths.antt =====
-- What the scanner leaves is no longer than the text (internal/tools/math_eval.go).
use nexixai_agentos.Prelude.{
  ℕ, suc, ◌≤◌, ◌<◌, ◌≡◌, Bool, true, false, [], ◌∷◌, length, Bool-cases, inl, inr, arith,
}
use nexixai_agentos.Pii.Patterns.{Bytes, is_digit}
use nexixai_agentos.Tools.MathEval.Scanner.{
  is_space, skip_whitespace, span, sign, fraction, exponent, is_empty, literal,
}
use nexixai_agentos.Tools.MathEval.{closes, behind}

pub length-skip-le : (ts : Bytes) → length (skip_whitespace ts) ≤ length ts
unfolding skip_whitespace
length-skip-le [] = omega arith
length-skip-le (c ∷ cs) = ground (arith, length-skip-le cs)

pub length-span-le : (p : ℕ → Bool) (ts : Bytes) → length (span p ts).1 ≤ length ts
unfolding span
length-span-le p [] = omega arith
length-span-le p (c ∷ cs) = ground (arith, length-span-le p cs)

-- A start that is not empty is gone from the rest.
pub length-span-lt :
    (p : ℕ → Bool) (ts : Bytes) → is_empty (span p ts).0 ≡ false → length (span p ts).1 < length ts
unfolding span
length-span-lt p [] h = cc
length-span-lt p (c ∷ cs) h = ground (arith, length-span-le p cs)

pub length-span_head :
    (p : ℕ → Bool) (c : ℕ) (cs : Bytes) → p c ≡ true → length (span p (c ∷ cs)).1 < suc (length cs)
unfolding span
length-span_head p c cs h = ground (arith, length-span-le p cs)

pub length-sign-le : (ts : Bytes) → length (sign ts).1 ≤ length ts
length-sign-le [] = omega arith
length-sign-le (c ∷ cs) = ground arith

pub length-fraction-le : (ts : Bytes) → length (fraction ts).2 ≤ length ts
length-fraction-le [] = omega arith
length-fraction-le (c ∷ cs) = ground (arith, length-span-le is_digit cs)

pub length-fraction-lt :
    (ts : Bytes) → is_empty (fraction ts).1 ≡ false → length (fraction ts).2 < length ts
length-fraction-lt [] h = cc
length-fraction-lt (c ∷ cs) h = ground (arith, length-span-le is_digit cs)

pub length-exponent-le : (ts : Bytes) → length (exponent ts).1 ≤ length ts
length-exponent-le [] = omega arith
length-exponent-le (c ∷ cs) = ground (arith, length-sign-le cs, length-span-le is_digit (sign cs).1)

pub length-literal-lt :
    (ts : Bytes) → (literal ts).has_digit ≡ true → length (literal ts).rest < length ts
unfolding literal
length-literal-lt ts h =
    let a = (sign ts).1 in
    let b = (span is_digit a).1 in
    let c = (fraction b).2 in
    let e = length-exponent-le c in
    elim (Bool-cases (is_empty (span is_digit a).0)) [
      | inr w ↦
          omega (arith, length-sign-le ts, length-span-lt is_digit a w, length-fraction-le b, e)
      | inl w ↦ elim (Bool-cases (is_empty (fraction b).1)) [
        | inr d ↦
            omega (arith, length-sign-le ts, length-span-le is_digit a, length-fraction-lt b d, e)
        | inl d ↦ ground (arith, w, d, h)
      ]
    ]

pub behind-lt :
    (ts : Bytes)
    → closes (skip_whitespace ts) ≡ true
    → length (behind (skip_whitespace ts)) < length ts
unfolding skip_whitespace
behind-lt [] h = cc
behind-lt (c ∷ cs) h = elim (Bool-cases (is_space c)) [
  | inl b ↦ ground (arith, b, behind-lt cs)
  | inr b ↦ ground (arith, b)
]
