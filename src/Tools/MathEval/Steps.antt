-- ===== src/Tools/MathEval/Steps.antt =====
-- The steps of the parser on what the grammar prints (internal/tools/math_eval.go).
use nexixai_agentos.Prelude.{
  ℕ, suc, ◌≤◌, ◌≡◌, refl, Bool, true, false, List, [], ◌∷◌, ◌++◌, if◌then◌else◌, length, arith,
}
use nexixai_agentos.Pii.Patterns.{Bytes}
use nexixai_agentos.Tools.MathEval.Scanner.{skip_whitespace}
use nexixai_agentos.Tools.MathEval.{
  Outcome, returns, fails, out_of_fuel, and_then, Func, Floats, apply, sqrt, abs, floor, ceil,
  round, log, log10, pow, min, max, multiplied, is_binary, parse_primary, parse_args, parse_unary,
  parse_add_sub, parse_mul_div, sums, products, arguments, is_sum_op, is_product_op,
}
use nexixai_agentos.Tools.MathEval.Grammar.{
  MulOp, times, divided_by, modulo, name_of, mul_op, sum_op, combined,
}
use nexixai_agentos.Tools.MathEval.Starts.{Begins, Misses, FollowsSum, skip-Begins, closes-Begins}

-- A value read with what is left, and what is done with both.
pub read_then {ℓ} :
    {A B C : Type ℓ} (o : Outcome A) (r : Bytes) (k : A × Bytes → Outcome C) (g : A → Outcome B)
    (h : B → Outcome C)
    → ((a : A) → k (a, r) ≡ and_then (g a) h)
    → and_then (and_then o (λ a. returns (a, r))) k ≡ and_then (and_then o g) h
read_then (returns a) r k g h e = e a
read_then fails r k g h e = refl
read_then out_of_fuel r k g h e = refl

pub then_both {ℓ} :
    {A B C : Type ℓ} (o : Outcome A) (k : A → Outcome C) (g : A → Outcome B) (h : B → Outcome C)
    → ((a : A) → k a ≡ and_then (g a) h)
    → and_then o k ≡ and_then (and_then o g) h
then_both (returns a) k g h e = e a
then_both fails k g h e = refl
then_both out_of_fuel k g h e = refl

pub then_same {ℓ} :
    {A B : Type ℓ} (o : Outcome A) (k g : A → Outcome B)
    → ((a : A) → k a ≡ g a)
    → and_then o k ≡ and_then o g
then_same (returns a) k g e = e a
then_same fails k g e = refl
then_same out_of_fuel k g e = refl

pub name_length : (f : Func) → 3 ≤ length (name_of f)
name_length sqrt = omega arith
name_length abs = omega arith
name_length floor = omega arith
name_length ceil = omega arith
name_length round = omega arith
name_length log = omega arith
name_length log10 = omega arith
name_length pow = omega arith
name_length min = omega arith
name_length max = omega arith

-- What is read of a text: a value, and the rest.
abbrev pub Reads : {F : Type 0} → Outcome (F × Bytes) → Outcome F → Bytes → Type 0
Reads o value rest = o ≡ and_then value (λ v. returns (v, rest))

pub Reads-on :
    {F : Type 0} (o : Outcome F) (r : Bytes) (g : F → F) (p : Outcome (F × Bytes))
    → Reads p o r
    → Reads (and_then p (λ (v, rest). returns (g v, rest))) (and_then o (λ v. returns (g v))) r
Reads-on (returns a) r g p h = rw h refl
Reads-on fails r g p h = rw h refl
Reads-on out_of_fuel r g p h = rw h refl

pub Reads-same :
    {F : Type 0} (o : Outcome F) (r : Bytes) (p : Outcome (F × Bytes))
    → Reads p o r
    → Reads (and_then p (λ (v, rest). returns (v, rest))) o r
Reads-same (returns a) r p h = rw h refl
Reads-same fails r p h = rw h refl
Reads-same out_of_fuel r p h = rw h refl

pub closing : (rest : Bytes) → FollowsSum (b')' ∷ rest)
unfolding skip_whitespace
closing rest = ((refl, refl), refl)

pub comma : (rest : Bytes) → FollowsSum (b',' ∷ rest)
unfolding skip_whitespace
comma rest = ((refl, refl), refl)

pub ending : FollowsSum []
unfolding skip_whitespace
ending = ((tt, tt), tt)

pub spaced : (ts : Bytes) → Begins ts → skip_whitespace (b' ' ∷ ts) ≡ ts
unfolding skip_whitespace
spaced ts h = skip-Begins ts h

module _ {F : Type 0} (fl : Floats F) where
  pub multiplied-mul_op :
      (op : MulOp) (left right : F)
      → multiplied fl (mul_op op) left right ≡ combined fl op left right
  multiplied-mul_op times left right = refl
  multiplied-mul_op divided_by left right = refl
  multiplied-mul_op modulo left right = refl

  pub sums_stop :
      (f : ℕ) (left : F) (ts : Bytes)
      → Misses is_sum_op ts
      → sums fl (suc f) left ts ≡ returns (left, ts)
  unfolding sums
  sums_stop f left [] h = refl
  sums_stop f left (c ∷ cs) h = rw h refl

  pub products_stop :
      (f : ℕ) (left : F) (ts : Bytes)
      → Misses is_product_op ts
      → products fl (suc f) left ts ≡ returns (left, ts)
  unfolding products
  products_stop f left [] h = refl
  products_stop f left (c ∷ cs) h = rw h refl

  pub sums_term :
      (plus : Bool) (f : ℕ) (left : F) (more : Bytes)
      → sums fl (suc f) left (skip_whitespace (b' ' ∷ sum_op plus ∷ more))
        ≡ and_then (parse_mul_div fl f more) (λ (v, rest).
          sums fl f (if plus then fl.add left v else fl.sub left v) (skip_whitespace rest))
  unfolding sums skip_whitespace
  sums_term true f left more = refl
  sums_term false f left more = refl

  pub products_factor :
      (op : MulOp) (f : ℕ) (left : F) (more : Bytes)
      → products fl (suc f) left (skip_whitespace (mul_op op ∷ more))
        ≡ and_then (parse_unary fl f (skip_whitespace more)) (λ (right, rest).
          and_then (combined fl op left right) (λ v. products fl f v (skip_whitespace rest)))
  unfolding products skip_whitespace
  products_factor times f left more = refl
  products_factor divided_by f left more = refl
  products_factor modulo f left more = refl

  pub parse_primary-group :
      (f : ℕ) (o : Outcome F) (more rest : Bytes)
      → Reads (parse_add_sub fl f more) o (skip_whitespace (b')' ∷ rest))
      → Reads (parse_primary fl (suc f) (b'(' ∷ more)) o rest
  unfolding parse_primary skip_whitespace
  parse_primary-group f (returns v) more rest h = rw h refl
  parse_primary-group f fails more rest h = rw h refl
  parse_primary-group f out_of_fuel more rest h = rw h refl

  pub parse_args_some :
      (f : ℕ) (ts : Bytes) → Begins ts → parse_args fl (suc f) ts ≡ arguments fl f [] ts
  unfolding parse_args
  parse_args_some f ts h = rw (closes-Begins ts h) refl

  pub arguments_end :
      (f : ℕ) (args : List F) (o : Outcome F) (ts rest : Bytes)
      → Reads (parse_add_sub fl (suc f) ts) o (skip_whitespace (b')' ∷ rest))
      → arguments fl (suc (suc f)) args ts ≡ and_then o (λ v. returns (args ++ v ∷ [], rest))
  unfolding arguments skip_whitespace
  arguments_end f args (returns v) ts rest h = rw h refl
  arguments_end f args fails ts rest h = rw h refl
  arguments_end f args out_of_fuel ts rest h = rw h refl

  pub arguments_comma :
      (f : ℕ) (args : List F) (o : Outcome F) (ts rest : Bytes)
      → Reads (parse_add_sub fl (suc f) ts) o (skip_whitespace (b',' ∷ rest))
      → arguments fl (suc (suc f)) args ts ≡ and_then o (λ v. arguments fl f (args ++ v ∷ []) rest)
  unfolding arguments skip_whitespace
  arguments_comma f args (returns v) ts rest h = rw h refl
  arguments_comma f args fails ts rest h = rw h refl
  arguments_comma f args out_of_fuel ts rest h = rw h refl

  pub applied_one :
      (fn : Func) (o : Outcome F) (rest : Bytes)
      → Reads
          (and_then
            (and_then {B = List F × Bytes} o (λ v. returns (v ∷ [], rest)))
            (λ (args, r). and_then (apply fl fn args) (λ v. returns (v, r))))
          (and_then o (λ x. if is_binary fn then fails else returns (fl.one fn x)))
          rest
  applied_one fn (returns x) rest = refl
  applied_one fn fails rest = refl
  applied_one fn out_of_fuel rest = refl

  pub applied_two :
      (fn : Func) (o p : Outcome F) (rest : Bytes)
      → Reads
          (and_then
            (and_then {B = List F × Bytes} o (λ x. and_then p (λ y. returns (x ∷ y ∷ [], rest))))
            (λ (args, r). and_then (apply fl fn args) (λ v. returns (v, r))))
          (and_then o
            (λ x. and_then p (λ y. if is_binary fn then returns (fl.two fn x y) else fails)))
          rest
  applied_two fn (returns x) (returns y) rest = refl
  applied_two fn (returns x) fails rest = refl
  applied_two fn (returns x) out_of_fuel rest = refl
  applied_two fn fails p rest = refl
  applied_two fn out_of_fuel p rest = refl
