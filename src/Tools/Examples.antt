-- ===== src/Tools/Examples.antt =====
-- Expressions evaluated with naturals in place of floats (internal/tools/math_eval.go).
use nexixai_agentos.Prelude.{
  ℕ, ◌+◌, ◌-◌, ◌*◌, ◌/◌, ◌%◌, ◌≡◌, ◌≢◌, refl, true, false, Option, none, some, [], ◌∷◌, ◌&&◌,
  if◌then◌else◌, eqb, leb,
}
use nexixai_agentos.Pii.Patterns.{Bytes, is_digit}
use nexixai_agentos.Tools.MathEval.Scanner.{skip_whitespace, span, literal, is_letter}
use nexixai_agentos.Tools.MathEval.{
  returns, fails, out_of_fuel, Func, min, max, sqrt, Floats, eval_expr, parse_add_sub, parse_number,
}
use nexixai_agentos.Tools.MathEval.Grammar.{
  Sum, sum, no_terms, term, product, no_factors, factor, times, plain, negated, number, call_two,
  print_sum, value_sum,
}
use nexixai_agentos.Tools.MathEval.Total.{eval_expr_stops}
use nexixai_agentos.Tools.MathEval.Reads.{eval_expr-print_sum}

-- A number of digits only.
abbrev decimal : ℕ → Bytes → Option ℕ
decimal n [] = some n
decimal n (c ∷ cs) = if is_digit c then decimal (10 * n + (c - 48)) cs else none

abbrev one_of : Func → ℕ → ℕ
one_of sqrt a = a - 1
one_of f a = a

abbrev two_of : Func → ℕ → ℕ → ℕ
two_of min a b = if leb a b then a else b
two_of max a b = if leb a b then b else a
two_of f a b = a

abbrev naturals : Floats ℕ
naturals = record {
  add = λ a b. a + b;
  sub = λ a b. a - b;
  mul = λ a b. a * b;
  div = λ a b. a / b;
  modulo = λ a b. a % b;
  neg = λ a. 1000 - a;
  is_zero = λ a. eqb a 0;
  parse_float = decimal 0;
  pi = 3;
  e = 2;
  one = one_of;
  two = two_of;
}

abbrev digit : (c : ℕ) → (is_digit c && true) ≡ true → Sum
digit c h = sum (product (plain (number c [] h)) no_factors) no_terms

-- 7 - 2 * -max(3, 4)
abbrev expression : Sum
expression = sum (product (plain (number b'7' [] refl)) no_factors) (
    term false
      (product (plain (number b'2' [] refl))
        (factor times (negated (call_two max (digit b'3' refl) (digit b'4' refl))) no_factors))
      no_terms)

eval_expr_stops_example : eval_expr naturals (λ ts. ts) (b'(' ∷ b'1' ∷ b'+' ∷ []) ≢ out_of_fuel
eval_expr_stops_example = eval_expr_stops naturals (λ ts. ts) (b'(' ∷ b'1' ∷ b'+' ∷ [])

trimmed : skip_whitespace (b' ' ∷ print_sum expression) ≡ print_sum expression
unfolding print_sum skip_whitespace
trimmed = refl

eval_expr-print_sum_example :
    eval_expr naturals skip_whitespace (b' ' ∷ print_sum expression) ≡ value_sum naturals expression
eval_expr-print_sum_example =
    eval_expr-print_sum naturals skip_whitespace (b' ' ∷ print_sum expression) expression trimmed

-- 8 - 3 - 2
left_to_right : eval_expr naturals (λ ts. ts) (b'8' ∷ b'-' ∷ b'3' ∷ b'-' ∷ b'2' ∷ []) ≡ returns 3
unfolding eval_expr parse_add_sub parse_number literal span skip_whitespace is_letter
left_to_right = refl

-- 1/0
division_by_zero : eval_expr naturals (λ ts. ts) (b'1' ∷ b'/' ∷ b'0' ∷ []) ≡ fails
unfolding eval_expr parse_add_sub parse_number literal span skip_whitespace is_letter
division_by_zero = refl
