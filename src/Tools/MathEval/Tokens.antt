-- ===== src/Tools/MathEval/Tokens.antt =====
-- Reading the pieces of a printed expression (internal/tools/math_eval.go).
use mathlib.Core.List.{append-nil}
use nexixai_agentos.Prelude.{
  ℕ, ◌≡◌, refl, Bool, true, false, not, [], ◌∷◌, ◌++◌, ◌||◌, eqb, Bool-cases, inl, inr, arith,
}
use nexixai_agentos.Pii.Patterns.{Bytes, is_digit}
use nexixai_agentos.Tools.MathEval.Scanner.{
  is_space, is_letter, skip_whitespace, span, fraction, exponent, literal,
}
use nexixai_agentos.Tools.MathEval.Grammar.{are_digits}

-- What may stand behind a number.
abbrev ends_number : ℕ → Bool
ends_number d = not (is_digit d || eqb d b'.' || eqb d b'e' || eqb d b'E')

abbrev pub NumberEnd : Bytes → Type 0
NumberEnd [] = Unit
NumberEnd (d ∷ ds) = ends_number d ≡ true

pub skip-skip : (ts : Bytes) → skip_whitespace (skip_whitespace ts) ≡ skip_whitespace ts
unfolding skip_whitespace
skip-skip [] = refl
skip-skip (c ∷ cs) = elim (Bool-cases (is_space c)) [
  | inl b ↦ rw b (skip-skip cs)
  | inr b ↦ rw (b, skip_whitespace, b) refl
]

pub digit_facts :
    (c : ℕ)
    → is_digit c ≡ true
    → (is_letter c ≡ false)
      × (is_space c ≡ false)
      × (eqb c b'(' ≡ false)
      × (eqb c b'-' ≡ false)
      × (eqb c b'+' ≡ false)
unfolding is_letter
digit_facts c h = (ground arith, ground arith, ground arith, ground arith, ground arith)

span-digits :
    (cs rest : Bytes)
    → are_digits cs ≡ true
    → NumberEnd rest
    → span is_digit (cs ++ rest) ≡ (cs, rest)
unfolding span
span-digits [] [] h e = refl
span-digits [] (d ∷ ds) h e = ground arith
span-digits (c ∷ cs) rest h e =
    let head : is_digit c ≡ true = ground arith in
    let tail = span-digits cs rest (ground arith) e in rw (tail, head) refl

fraction_end : (rest : Bytes) → NumberEnd rest → fraction rest ≡ ([], [], rest)
fraction_end [] e = refl
fraction_end (d ∷ ds) e = let no_point : eqb d b'.' ≡ false = ground arith in rw no_point refl

exponent_end : (rest : Bytes) → NumberEnd rest → exponent rest ≡ ([], rest)
exponent_end [] e = refl
exponent_end (d ∷ ds) e =
    let none : (eqb d b'e' || eqb d b'E') ≡ false = ground arith in rw none refl

pub literal-digits :
    (c : ℕ) (cs rest : Bytes)
    → are_digits (c ∷ cs) ≡ true
    → NumberEnd rest
    → literal (c ∷ (cs ++ rest)) ≡ record { has_digit = true; text = c ∷ cs; rest = rest }
unfolding literal
literal-digits c cs rest h e =
    let head : is_digit c ≡ true = ground arith in
    let facts = digit_facts c head in
    rw
      (
        facts.3,
        facts.4,
        span-digits (c ∷ cs) rest h e,
        fraction_end rest e,
        exponent_end rest e,
        append-nil cs,
      )
      refl
