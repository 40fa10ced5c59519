-- ===== src/Tools/MathEval.antt =====
-- internal/tools/math_eval.go: the parser that evaluates arithmetic expressions. A text is its bytes, and
-- the position of the parser is what is left of it. The arithmetic of floats, their parsing and
-- trimming are arguments. Errors are told apart by nothing. Each call of the parser costs a unit
-- of fuel.
pub mod Scanner
pub mod Lengths
pub mod Total
pub mod Grammar
pub mod Tokens
pub mod Starts
pub mod Steps
pub mod Reads
use nexixai_agentos.Prelude.{
  ℕ, zero, suc, ◌+◌, ◌*◌, Bool, true, false, not, Option, none, some, List, [], ◌∷◌, ◌++◌, ◌==◌,
  ◌&&◌, ◌||◌, if◌then◌else◌, eqb, leb, length, map,
}
use nexixai_agentos.Pii.Patterns.{Bytes, is_digit}
use nexixai_agentos.Tools.MathEval.Scanner.{
  is_space, is_letter, is_word, skip_whitespace, span, lower, same_bytes, Literal, literal,
}

pub data Outcome {ℓ} (A : Type ℓ) : Type ℓ where
  returns : A → Outcome A
  fails : Outcome A
  out_of_fuel : Outcome A

abbrev pub and_then {ℓ κ} : {A : Type ℓ} {B : Type κ} → Outcome A → (A → Outcome B) → Outcome B
and_then (returns a) k = k a
and_then fails k = fails
and_then out_of_fuel k = out_of_fuel

abbrev pub or_fail {ℓ} : {A : Type ℓ} → Option A → Outcome A
or_fail none = fails
or_fail (some a) = returns a

pub data Func : Type 0 where
  sqrt abs floor ceil round log log10 : Func
  pow min max : Func

-- The operations on floats. `parse_float` fails out of range, too.
pub record Floats (F : Type 0) : Type 0 where
  pub add : F → F → F
  pub sub : F → F → F
  pub mul : F → F → F
  pub div : F → F → F
  pub modulo : F → F → F
  pub neg : F → F
  pub is_zero : F → Bool
  pub parse_float : Bytes → Option F
  pub pi : F
  pub e : F
  pub one : Func → F → F
  pub two : Func → F → F → F

-- The names of the functions, in bytes.
abbrev pub functions : List (Bytes × Func)
functions =
    (b's' ∷ b'q' ∷ b'r' ∷ b't' ∷ [], sqrt)
    ∷ (b'a' ∷ b'b' ∷ b's' ∷ [], abs)
    ∷ (b'f' ∷ b'l' ∷ b'o' ∷ b'o' ∷ b'r' ∷ [], floor)
    ∷ (b'c' ∷ b'e' ∷ b'i' ∷ b'l' ∷ [], ceil)
    ∷ (b'r' ∷ b'o' ∷ b'u' ∷ b'n' ∷ b'd' ∷ [], round)
    ∷ (b'l' ∷ b'o' ∷ b'g' ∷ [], log)
    ∷ (b'l' ∷ b'o' ∷ b'g' ∷ b'1' ∷ b'0' ∷ [], log10)
    ∷ (b'p' ∷ b'o' ∷ b'w' ∷ [], pow)
    ∷ (b'm' ∷ b'i' ∷ b'n' ∷ [], min)
    ∷ (b'm' ∷ b'a' ∷ b'x' ∷ [], max)
    ∷ []

abbrev find_func : Bytes → List (Bytes × Func) → Option Func
find_func name [] = none
find_func name ((n, f) ∷ fs) = if same_bytes n name then some f else find_func name fs

abbrev pub func_of : Bytes → Option Func
func_of name = find_func name functions

abbrev pub is_binary : Func → Bool
is_binary pow = true
is_binary min = true
is_binary max = true
is_binary _ = false

abbrev pub empty_text : Bytes → Bool
empty_text [] = true
empty_text (c ∷ cs) = false

abbrev pub is_sum_op : ℕ → Bool
is_sum_op c = eqb c b'+' || eqb c b'-'

abbrev pub is_product_op : ℕ → Bool
is_product_op c = eqb c b'*' || eqb c b'/' || eqb c b'%'

abbrev pub closes : Bytes → Bool
closes [] = false
closes (c ∷ cs) = eqb c b')'

abbrev pub behind : Bytes → Bytes
behind [] = []
behind (c ∷ cs) = cs

module _ {F : Type 0} (fl : Floats F) where
  abbrev pub constant : Bytes → Option F
  constant name =
      if same_bytes name (b'p' ∷ b'i' ∷ [])
      then some fl.pi
      else if same_bytes name (b'e' ∷ [])
      then some fl.e
      else none

  -- A function takes one argument or two, by its name.
  abbrev pub apply : Func → List F → Outcome F
  apply f [] = fails
  apply f (x ∷ []) = if is_binary f then fails else returns (fl.one f x)
  apply f (x ∷ y ∷ []) = if is_binary f then returns (fl.two f x y) else fails
  apply f (x ∷ y ∷ z ∷ args) = fails

  abbrev pub apply_named : Option Func → List F → Outcome F
  apply_named none args = fails
  apply_named (some f) args = apply f args

  -- The closing parenthesis after a value.
  abbrev pub close : F → Bytes → Outcome (F × Bytes)
  close v [] = fails
  close v (c ∷ cs) = if eqb c b')' then returns (v, cs) else fails

  unfoldable pub parse_number : Bytes → Outcome (F × Bytes)
  parse_number ts =
      let l = literal (skip_whitespace ts) in
      if l.has_digit
      then and_then (or_fail (fl.parse_float l.text)) (λ v. returns (v, l.rest))
      else fails

  -- A call, given what parses its arguments behind the opening parenthesis.
  abbrev pub call_of : (Bytes → Outcome (List F × Bytes)) → Bytes → Bytes → Outcome (F × Bytes)
  call_of parse_args name [] = fails
  call_of parse_args name (c ∷ cs) =
      if eqb c b'('
      then and_then (parse_args cs)
          (λ (args, rest). and_then (apply_named (func_of name) args) (λ v. returns (v, rest)))
      else fails

  abbrev pub constant_or :
      (Bytes → Outcome (List F × Bytes)) → Bytes → Bytes → Option F → Outcome (F × Bytes)
  constant_or parse_args name rest (some v) = returns (v, rest)
  constant_or parse_args name rest none = call_of parse_args name (skip_whitespace rest)

  unfoldable pub parse_func : (Bytes → Outcome (List F × Bytes)) → Bytes → Outcome (F × Bytes)
  parse_func parse_args ts =
      let (word, rest) = span is_word ts in
      constant_or parse_args (map lower word) rest (constant (map lower word))

  abbrev pub multiplied : ℕ → F → F → Outcome F
  multiplied op left right =
      if eqb op b'*'
      then returns (fl.mul left right)
      else if fl.is_zero right
      then fails
      else returns (if eqb op b'/' then fl.div left right else fl.modulo left right)

  abbrev pub added : ℕ → F → F → F
  added op left right = if eqb op b'+' then fl.add left right else fl.sub left right

  unfoldable mutual
    pub parse_add_sub : ℕ → Bytes → Outcome (F × Bytes)
    parse_add_sub zero ts = out_of_fuel
    parse_add_sub (suc f) ts =
        and_then (parse_mul_div f ts) (λ (v, rest). sums f v (skip_whitespace rest))

    -- The loop of parseAddSub, behind the white space.
    pub sums : ℕ → F → Bytes → Outcome (F × Bytes)
    sums zero left ts = out_of_fuel
    sums (suc f) left [] = returns (left, [])
    sums (suc f) left (c ∷ cs) =
        let more =
          and_then (parse_mul_div f cs)
            (λ (right, rest). sums f (added c left right) (skip_whitespace rest)) in
        if is_sum_op c then more else returns (left, c ∷ cs)

    pub parse_mul_div : ℕ → Bytes → Outcome (F × Bytes)
    parse_mul_div zero ts = out_of_fuel
    parse_mul_div (suc f) ts =
        and_then (parse_unary f (skip_whitespace ts))
          (λ (v, rest). products f v (skip_whitespace rest))

    pub products : ℕ → F → Bytes → Outcome (F × Bytes)
    products zero left ts = out_of_fuel
    products (suc f) left [] = returns (left, [])
    products (suc f) left (c ∷ cs) =
        let more = and_then (parse_unary f (skip_whitespace cs)) (λ (right, rest).
          and_then (multiplied c left right) (λ v. products f v (skip_whitespace rest))) in
        if is_product_op c then more else returns (left, c ∷ cs)

    pub parse_unary : ℕ → Bytes → Outcome (F × Bytes)
    parse_unary zero ts = out_of_fuel
    parse_unary (suc f) [] = parse_primary f []
    parse_unary (suc f) (c ∷ cs) =
        and_then
          (parse_primary f (skip_whitespace (if eqb c b'-' || eqb c b'+' then cs else c ∷ cs)))
          (λ (v, rest). returns (if eqb c b'-' then fl.neg v else v, rest))

    pub parse_primary : ℕ → Bytes → Outcome (F × Bytes)
    parse_primary zero ts = out_of_fuel
    parse_primary (suc f) [] = fails
    parse_primary (suc f) (c ∷ cs) =
        let inner = and_then (parse_add_sub f cs) (λ (v, rest). close v (skip_whitespace rest)) in
        let func = parse_func (parse_args f) (c ∷ cs) in
        if eqb c b'(' then inner else if is_letter c then func else parse_number (c ∷ cs)

    pub parse_args : ℕ → Bytes → Outcome (List F × Bytes)
    parse_args zero ts = out_of_fuel
    parse_args (suc f) ts =
        let some_args = arguments f [] ts in
        if closes (skip_whitespace ts) then returns ([], behind (skip_whitespace ts)) else some_args

    pub arguments : ℕ → List F → Bytes → Outcome (List F × Bytes)
    arguments zero args ts = out_of_fuel
    arguments (suc f) args ts =
        and_then (parse_add_sub f ts)
          (λ (v, rest). next_argument f (args ++ v ∷ []) (skip_whitespace rest))

    pub next_argument : ℕ → List F → Bytes → Outcome (List F × Bytes)
    next_argument zero args ts = out_of_fuel
    next_argument (suc f) args [] = fails
    next_argument (suc f) args (c ∷ cs) =
        let more = arguments f args cs in
        if eqb c b')' then returns (args, cs) else if eqb c b',' then more else fails

  abbrev pub finished : F × Bytes → Outcome F
  finished (v, rest) = if empty_text (skip_whitespace rest) then returns v else fails

  -- What is given as fuel is enough for any text.
  unfoldable pub eval_expr : (Bytes → Bytes) → Bytes → Outcome F
  eval_expr trim_space expr =
      let ts = trim_space expr in and_then (parse_add_sub (8 * length ts + 8) ts) finished
