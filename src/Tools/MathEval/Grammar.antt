-- ===== src/Tools/MathEval/Grammar.antt =====
-- The grammar of arithmetic expressions, with what they are worth (internal/tools/math_eval.go). Sums and
-- products associate to the left, products bind closer than sums, and a sign belongs to the
-- operand behind it.
use nexixai_agentos.Prelude.{ℕ, Bool, true, [], ◌∷◌, ◌++◌, ◌≡◌, if◌then◌else◌, ◌&&◌}
use nexixai_agentos.Pii.Patterns.{Bytes, is_digit}
use nexixai_agentos.Tools.MathEval.{
  Outcome, returns, fails, and_then, or_fail, Func, sqrt, abs, floor, ceil, round, log, log10, pow,
  min, max, Floats, is_binary,
}

abbrev pub are_digits : Bytes → Bool
are_digits [] = true
are_digits (c ∷ cs) = is_digit c && are_digits cs

pub data MulOp : Type 0 where
  times divided_by modulo : MulOp

mutual
  pub data Sum : Type 0 where
    sum : Product → Terms → Sum

  -- What is added (true) or subtracted.
  pub data Terms : Type 0 where
    no_terms : Terms
    term : Bool → Product → Terms → Terms

  pub data Product : Type 0 where
    product : Unary → Factors → Product

  pub data Factors : Type 0 where
    no_factors : Factors
    factor : MulOp → Unary → Factors → Factors

  pub data Unary : Type 0 where
    plain : Primary → Unary
    negated : Primary → Unary
    positive : Primary → Unary

  pub data Primary : Type 0 where
    number : (c : ℕ) → (cs : Bytes) → are_digits (c ∷ cs) ≡ true → Primary
    group : Sum → Primary
    call_one : Func → Sum → Primary
    call_two : Func → Sum → Sum → Primary

abbrev pub name_of : Func → Bytes
name_of sqrt = b's' ∷ b'q' ∷ b'r' ∷ b't' ∷ []
name_of abs = b'a' ∷ b'b' ∷ b's' ∷ []
name_of floor = b'f' ∷ b'l' ∷ b'o' ∷ b'o' ∷ b'r' ∷ []
name_of ceil = b'c' ∷ b'e' ∷ b'i' ∷ b'l' ∷ []
name_of round = b'r' ∷ b'o' ∷ b'u' ∷ b'n' ∷ b'd' ∷ []
name_of log = b'l' ∷ b'o' ∷ b'g' ∷ []
name_of log10 = b'l' ∷ b'o' ∷ b'g' ∷ b'1' ∷ b'0' ∷ []
name_of pow = b'p' ∷ b'o' ∷ b'w' ∷ []
name_of min = b'm' ∷ b'i' ∷ b'n' ∷ []
name_of max = b'm' ∷ b'a' ∷ b'x' ∷ []

abbrev pub mul_op : MulOp → ℕ
mul_op times = b'*'
mul_op divided_by = b'/'
mul_op modulo = b'%'

abbrev pub sum_op : Bool → ℕ
sum_op plus = if plus then b'+' else b'-'

unfoldable mutual
  pub print_sum : Sum → Bytes
  print_sum (sum p ts) = print_product p ++ print_terms ts

  -- Spaces stand around + and -.
  pub print_terms : Terms → Bytes
  print_terms no_terms = []
  print_terms (term plus p ts) = b' ' ∷ sum_op plus ∷ b' ' ∷ (print_product p ++ print_terms ts)

  pub print_product : Product → Bytes
  print_product (product u fs) = print_unary u ++ print_factors fs

  pub print_factors : Factors → Bytes
  print_factors no_factors = []
  print_factors (factor op u fs) = mul_op op ∷ (print_unary u ++ print_factors fs)

  pub print_unary : Unary → Bytes
  print_unary (plain p) = print_primary p
  print_unary (negated p) = b'-' ∷ print_primary p
  print_unary (positive p) = b'+' ∷ print_primary p

  pub print_primary : Primary → Bytes
  print_primary (number c cs h) = c ∷ cs
  print_primary (group s) = b'(' ∷ (print_sum s ++ b')' ∷ [])
  print_primary (call_one f s) = name_of f ++ b'(' ∷ (print_sum s ++ b')' ∷ [])
  print_primary (call_two f s t) =
      name_of f ++ b'(' ∷ (print_sum s ++ b',' ∷ (print_sum t ++ b')' ∷ []))

module _ {F : Type 0} (fl : Floats F) where
  -- Nothing is divided by zero.
  abbrev pub combined : MulOp → F → F → Outcome F
  combined times left right = returns (fl.mul left right)
  combined divided_by left right = if fl.is_zero right then fails else returns (fl.div left right)
  combined modulo left right = if fl.is_zero right then fails else returns (fl.modulo left right)

  unfoldable mutual
    pub value_sum : Sum → Outcome F
    value_sum (sum p ts) = and_then (value_product p) (λ v. value_terms v ts)

    pub value_terms : F → Terms → Outcome F
    value_terms left no_terms = returns left
    value_terms left (term plus p ts) =
        and_then (value_product p)
          (λ v. value_terms (if plus then fl.add left v else fl.sub left v) ts)

    pub value_product : Product → Outcome F
    value_product (product u fs) = and_then (value_unary u) (λ v. value_factors v fs)

    pub value_factors : F → Factors → Outcome F
    value_factors left no_factors = returns left
    value_factors left (factor op u fs) =
        and_then (value_unary u)
          (λ right. and_then (combined op left right) (λ v. value_factors v fs))

    pub value_unary : Unary → Outcome F
    value_unary (plain p) = value_primary p
    value_unary (negated p) = and_then (value_primary p) (λ v. returns (fl.neg v))
    value_unary (positive p) = value_primary p

    pub value_primary : Primary → Outcome F
    value_primary (number c cs h) = or_fail (fl.parse_float (c ∷ cs))
    value_primary (group s) = value_sum s
    value_primary (call_one f s) =
        and_then (value_sum s) (λ x. if is_binary f then fails else returns (fl.one f x))
    value_primary (call_two f s t) =
        and_then (value_sum s)
          (λ x. and_then (value_sum t) (λ y. if is_binary f then returns (fl.two f x y) else fails))
