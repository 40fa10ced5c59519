-- ===== src/Tools/MathEval/Starts.antt =====
-- How what the grammar prints starts, and what the parser does on it (internal/tools/math_eval.go).
use nexixai_agentos.Prelude.{ℕ, suc, ◌≡◌, refl, Bool, true, false, [], ◌∷◌, ◌++◌, eqb, arith}
use nexixai_agentos.Pii.Patterns.{Bytes, is_digit}
use nexixai_agentos.Tools.MathEval.Scanner.{is_space, is_letter, skip_whitespace, span}
use nexixai_agentos.Tools.MathEval.{
  returns, and_then, or_fail, Func, sqrt, abs, floor, ceil, round, log, log10, pow, min, max,
  Floats, apply, parse_number, parse_func, parse_primary, parse_args, parse_unary, is_sum_op,
  is_product_op, closes,
}
use nexixai_agentos.Tools.MathEval.Grammar.{
  are_digits, times, divided_by, modulo, Sum, Terms, Product, Factors, Unary, Primary, sum,
  no_terms, term, product, no_factors, factor, number, group, call_one, call_two, plain, negated,
  positive, name_of, print_sum, print_terms, print_product, print_factors, print_primary,
  print_unary,
}
use nexixai_agentos.Tools.MathEval.Tokens.{NumberEnd, digit_facts, literal-digits}

-- What an operand starts with: no white space, no closing parenthesis and no sign.
abbrev pub Starts : Bytes → Type 0
Starts [] = ⊥
Starts (c ∷ cs) =
    (is_space c ≡ false) × (eqb c b')' ≡ false) × (eqb c b'-' ≡ false) × (eqb c b'+' ≡ false)

-- What a sum starts with.
abbrev pub Begins : Bytes → Type 0
Begins [] = ⊥
Begins (c ∷ cs) = (is_space c ≡ false) × (eqb c b')' ≡ false)

-- No byte that passes the test stands first.
abbrev pub Misses : (ℕ → Bool) → Bytes → Type 0
Misses p [] = Unit
Misses p (c ∷ cs) = p c ≡ false

abbrev pub FollowsProduct : Bytes → Type 0
FollowsProduct rest = NumberEnd rest × Misses is_product_op (skip_whitespace rest)

abbrev pub FollowsSum : Bytes → Type 0
FollowsSum rest = FollowsProduct rest × Misses is_sum_op (skip_whitespace rest)

Starts-append : (a b : Bytes) → Starts a → Starts (a ++ b)
Starts-append [] b h = absurd h
Starts-append (c ∷ cs) b h = h

Begins-append : (a b : Bytes) → Begins a → Begins (a ++ b)
Begins-append [] b h = absurd h
Begins-append (c ∷ cs) b h = h

Starts-Begins : (a : Bytes) → Starts a → Begins a
Starts-Begins [] h = h
Starts-Begins (c ∷ cs) h = (h.0, h.1)

pub skip-Begins : (ts : Bytes) → Begins ts → skip_whitespace ts ≡ ts
unfolding skip_whitespace
skip-Begins [] h = refl
skip-Begins (c ∷ cs) h = rw h.0 refl

pub closes-Begins : (ts : Bytes) → Begins ts → closes (skip_whitespace ts) ≡ false
unfolding skip_whitespace
closes-Begins [] h = absurd h
closes-Begins (c ∷ cs) h = rw h.0 h.1

named : (f : Func) (rest : Bytes) → Starts (name_of f ++ rest)
named sqrt rest = (refl, refl, refl, refl)
named abs rest = (refl, refl, refl, refl)
named floor rest = (refl, refl, refl, refl)
named ceil rest = (refl, refl, refl, refl)
named round rest = (refl, refl, refl, refl)
named log rest = (refl, refl, refl, refl)
named log10 rest = (refl, refl, refl, refl)
named pow rest = (refl, refl, refl, refl)
named min rest = (refl, refl, refl, refl)
named max rest = (refl, refl, refl, refl)

pub Starts-print_primary : (p : Primary) (rest : Bytes) → Starts (print_primary p ++ rest)
unfolding print_primary
Starts-print_primary (number c cs h) rest =
    let head : is_digit c ≡ true = ground arith in
    let facts = digit_facts c head in (facts.1, ground arith, facts.3, facts.4)
Starts-print_primary (group s) rest = (refl, refl, refl, refl)
Starts-print_primary (call_one f s) rest =
    Starts-append (print_primary (call_one f s)) rest (named f _)
Starts-print_primary (call_two f s t) rest =
    Starts-append (print_primary (call_two f s t)) rest (named f _)

pub Begins-print_unary : (u : Unary) (rest : Bytes) → Begins (print_unary u ++ rest)
unfolding print_unary
Begins-print_unary (plain p) rest =
    Starts-Begins (print_primary p ++ rest) (Starts-print_primary p rest)
Begins-print_unary (negated p) rest = (refl, refl)
Begins-print_unary (positive p) rest = (refl, refl)

pub Begins-print_product : (p : Product) (rest : Bytes) → Begins (print_product p ++ rest)
unfolding print_product
Begins-print_product (product u fs) rest =
    Begins-append (print_unary u ++ print_factors fs) rest (Begins-print_unary u (print_factors fs))

pub Begins-print_sum : (s : Sum) (rest : Bytes) → Begins (print_sum s ++ rest)
unfolding print_sum
Begins-print_sum (sum p ts) rest =
    Begins-append (print_product p ++ print_terms ts) rest (Begins-print_product p (print_terms ts))

pub NumberEnd-print_factors :
    (fs : Factors) (rest : Bytes) → NumberEnd rest → NumberEnd (print_factors fs ++ rest)
unfolding print_factors
NumberEnd-print_factors no_factors rest h = h
NumberEnd-print_factors (factor times u fs) rest h = refl
NumberEnd-print_factors (factor divided_by u fs) rest h = refl
NumberEnd-print_factors (factor modulo u fs) rest h = refl

pub FollowsProduct-print_terms :
    (ts : Terms) (rest : Bytes) → FollowsSum rest → FollowsProduct (print_terms ts ++ rest)
unfolding print_terms skip_whitespace
FollowsProduct-print_terms no_terms rest h = h.0
FollowsProduct-print_terms (term true p ts) rest h = (refl, refl)
FollowsProduct-print_terms (term false p ts) rest h = (refl, refl)

module _ {F : Type 0} (fl : Floats F) where
  pub parse_primary-name_of :
      (f : Func) (fuel : ℕ) (rest : Bytes)
      → parse_primary fl (suc fuel) (name_of f ++ b'(' ∷ rest)
        ≡ and_then
            (parse_args fl fuel rest)
            (λ (args, r). and_then (apply fl f args) (λ v. returns (v, r)))
  unfolding parse_primary parse_func span skip_whitespace is_letter
  parse_primary-name_of sqrt fuel rest = refl
  parse_primary-name_of abs fuel rest = refl
  parse_primary-name_of floor fuel rest = refl
  parse_primary-name_of ceil fuel rest = refl
  parse_primary-name_of round fuel rest = refl
  parse_primary-name_of log fuel rest = refl
  parse_primary-name_of log10 fuel rest = refl
  parse_primary-name_of pow fuel rest = refl
  parse_primary-name_of min fuel rest = refl
  parse_primary-name_of max fuel rest = refl

  pub parse_primary-number :
      (c : ℕ) (cs rest : Bytes) (fuel : ℕ)
      → are_digits (c ∷ cs) ≡ true
      → NumberEnd rest
      → parse_primary fl (suc fuel) (c ∷ (cs ++ rest))
        ≡ and_then (or_fail (fl.parse_float (c ∷ cs))) (λ v. returns (v, rest))
  unfolding parse_primary parse_number skip_whitespace
  parse_primary-number c cs rest fuel h e =
      let head : is_digit c ≡ true = ground arith in
      let facts = digit_facts c head in
      rw (facts.2, facts.0, facts.1, literal-digits c cs rest h e) refl

  pub parse_unary-Starts :
      (fuel : ℕ) (ts : Bytes)
      → Starts ts
      → parse_unary fl (suc fuel) ts
        ≡ and_then (parse_primary fl fuel ts) (λ (v, rest). returns (v, rest))
  unfolding parse_unary skip_whitespace
  parse_unary-Starts fuel [] h = absurd h
  parse_unary-Starts fuel (c ∷ cs) h = rw (h.2, h.3, h.0) refl

  pub parse_unary-minus :
      (fuel : ℕ) (ts : Bytes)
      → Starts ts
      → parse_unary fl (suc fuel) (b'-' ∷ ts)
        ≡ and_then (parse_primary fl fuel ts) (λ (v, rest). returns (fl.neg v, rest))
  unfolding parse_unary
  parse_unary-minus fuel ts h = rw (skip-Begins ts (Starts-Begins ts h)) refl

  pub parse_unary-plus :
      (fuel : ℕ) (ts : Bytes)
      → Starts ts
      → parse_unary fl (suc fuel) (b'+' ∷ ts)
        ≡ and_then (parse_primary fl fuel ts) (λ (v, rest). returns (v, rest))
  unfolding parse_unary
  parse_unary-plus fuel ts h = rw (skip-Begins ts (Starts-Begins ts h)) refl
