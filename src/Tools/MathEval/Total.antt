-- ===== src/Tools/MathEval/Total.antt =====
-- The parser stops on every text (internal/tools/math_eval.go).
use nexixai_agentos.Prelude.{
  ℕ, zero, suc, ◌+◌, ◌*◌, ◌≤◌, ◌<◌, ◌≡◌, ◌≢◌, refl, true, Option, none, some, List, [], ◌∷◌, ◌++◌,
  ◌||◌, if◌then◌else◌, if_holds, eqb, length, map, Bool-cases, inl, inr, arith,
}
use nexixai_agentos.Pii.Patterns.{Bytes}
use nexixai_agentos.Tools.MathEval.Scanner.{
  is_letter, is_word, skip_whitespace, span, lower, literal,
}
use nexixai_agentos.Tools.MathEval.{
  Outcome, returns, fails, out_of_fuel, and_then, or_fail, Func, Floats, func_of, constant,
  apply_named, close, parse_number, call_of, constant_or, parse_func, multiplied, added, is_sum_op,
  is_product_op, closes, parse_add_sub, sums, parse_mul_div, products, parse_unary, parse_primary,
  parse_args, arguments, next_argument, finished, eval_expr,
}
use nexixai_agentos.Tools.MathEval.Lengths.{
  length-skip-le, length-span_head, length-literal-lt, behind-lt,
}

-- The parser did not run out of fuel, and what it left is shorter than n.
abbrev pub Within {ℓ} : {A : Type ℓ} → ℕ → Outcome (A × Bytes) → Type 0
Within n (returns x) = length x.1 < n
Within n fails = Unit
Within n out_of_fuel = ⊥

Within-then {ℓ κ} :
    {A : Type ℓ} {B : Type κ} (n m : ℕ) (o : Outcome (A × Bytes))
    (k : A × Bytes → Outcome (B × Bytes))
    → Within m o
    → ((x : A × Bytes) → length x.1 < m → Within n (k x))
    → Within n (and_then o k)
Within-then n m (returns x) k h next = next x h
Within-then n m fails k h next = tt
Within-then n m out_of_fuel k h next = h

Within-longer {ℓ} :
    {A : Type ℓ} (m n : ℕ) (o : Outcome (A × Bytes)) → m ≤ n → Within m o → Within n o
Within-longer m n (returns x) h w = omega arith
Within-longer m n fails h w = tt
Within-longer m n out_of_fuel h w = w

-- The part of an outcome that does not read the text.
Within-value {ℓ κ} :
    {A : Type ℓ} {B : Type κ} (n : ℕ) (o : Outcome A) (k : A → Outcome (B × Bytes))
    → o ≢ out_of_fuel
    → ((a : A) → Within n (k a))
    → Within n (and_then o k)
Within-value n (returns a) k h next = next a
Within-value n fails k h next = tt
Within-value n out_of_fuel k h next = h refl

module _ {F : Type 0} (fl : Floats F) where
  parse_number-Within : (ts : Bytes) → Within (length ts) (parse_number fl ts)
  unfolding parse_number
  parse_number-Within ts = elim (Bool-cases (literal (skip_whitespace ts)).has_digit) [
    | inr d ↦ rw d tt
    | inl d ↦ rw d (
        Within-value (length ts) (or_fail (fl.parse_float (literal (skip_whitespace ts)).text)) _
          (read (fl.parse_float (literal (skip_whitespace ts)).text))
          (λ v. omega (arith, length-literal-lt (skip_whitespace ts) d, length-skip-le ts)))
  ]
    where
      read : (o : Option F) → or_fail o ≢ out_of_fuel
      read none = cc
      read (some v) = cc

  apply-returns : (o : Option Func) (args : List F) → apply_named fl o args ≢ out_of_fuel
  apply-returns none args = cc
  apply-returns (some f) [] = cc
  apply-returns (some f) (x ∷ []) = ground arith
  apply-returns (some f) (x ∷ y ∷ []) = ground arith
  apply-returns (some f) (x ∷ y ∷ z ∷ args) = cc

  multiplied-returns : (op : ℕ) (left right : F) → multiplied fl op left right ≢ out_of_fuel
  multiplied-returns op left right = ground arith

  close-Within : (n : ℕ) (v : F) (ts : Bytes) → length ts ≤ n → Within n (close fl v ts)
  close-Within n v [] h = tt
  close-Within n v (c ∷ cs) h = if_holds (Within n) (eqb c b')') _ _ (λ e. omega arith) (λ e. tt)

  call_of-Within :
      (parse : Bytes → Outcome (List F × Bytes)) (n : ℕ) (name ts : Bytes)
      → length ts < n
      → ((cs : Bytes) → suc (length cs) < n → Within (length cs) (parse cs))
      → Within n (call_of fl parse name ts)
  call_of-Within parse n name [] h args = tt
  call_of-Within parse n name (c ∷ cs) h args =
      if_holds (Within n) (eqb c b'(') _ _
        (λ e. Within-then n (length cs) (parse cs) _ (args cs h) (λ x less.
          Within-value n (apply_named fl (func_of name) x.0) _ (apply-returns (func_of name) x.0)
            (λ v. omega arith)))
        (λ e. tt)

  constant_or-Within :
      (parse : Bytes → Outcome (List F × Bytes)) (n : ℕ) (name rest : Bytes) (o : Option F)
      → length rest < n
      → ((cs : Bytes) → suc (length cs) < n → Within (length cs) (parse cs))
      → Within n (constant_or fl parse name rest o)
  constant_or-Within parse n name rest (some v) h args = h
  constant_or-Within parse n name rest none h args =
      call_of-Within parse n name (skip_whitespace rest) (omega (arith, length-skip-le rest)) args

  parse_func-Within :
      (parse : Bytes → Outcome (List F × Bytes)) (c : ℕ) (cs : Bytes)
      → is_letter c ≡ true
      → ((ds : Bytes) → suc (length ds) < suc (length cs) → Within (length ds) (parse ds))
      → Within (suc (length cs)) (parse_func fl parse (c ∷ cs))
  unfolding parse_func
  parse_func-Within parse c cs h args =
      let (word, rest) = span is_word (c ∷ cs) in
      let head : is_word c ≡ true = ground (arith, h) in
      constant_or-Within parse (suc (length cs)) (map lower word) rest
        (constant fl (map lower word)) (length-span_head is_word c cs head) args

  -- Each call has its own share of fuel for each byte that is left.
  mutual
    unfolding parse_add_sub

    parse_add_sub-Within :
        (f : ℕ) (ts : Bytes) → 8 * length ts + 7 ≤ f → Within (length ts) (parse_add_sub fl f ts)
    parse_add_sub-Within zero ts h = absurd (omega arith)
    parse_add_sub-Within (suc f) ts h =
        Within-then (length ts) (length ts) (parse_mul_div fl f ts) _
          (parse_mul_div-Within f ts (omega arith))
          (λ x less.
            sums-Within f x.0 (skip_whitespace x.1) (length ts) (omega (arith, length-skip-le x.1))
              (omega (arith, length-skip-le x.1)))

    sums-Within :
        (f : ℕ) (left : F) (ts : Bytes) (n : ℕ)
        → 8 * length ts + 1 ≤ f
        → length ts < n
        → Within n (sums fl f left ts)
    sums-Within zero left ts n h less = absurd (omega arith)
    sums-Within (suc f) left [] n h less = less
    sums-Within (suc f) left (c ∷ cs) n h less =
        if_holds (Within n) (is_sum_op c) _ _
          (λ e.
            Within-then n (length cs) (parse_mul_div fl f cs) _
              (parse_mul_div-Within f cs (omega arith))
              (λ x shorter.
                sums-Within f (added fl c left x.0) (skip_whitespace x.1) n
                  (omega (arith, length-skip-le x.1)) (omega (arith, length-skip-le x.1))))
          (λ e. less)

    parse_mul_div-Within :
        (f : ℕ) (ts : Bytes) → 8 * length ts + 6 ≤ f → Within (length ts) (parse_mul_div fl f ts)
    parse_mul_div-Within zero ts h = absurd (omega arith)
    parse_mul_div-Within (suc f) ts h =
        Within-then (length ts) (length ts) (parse_unary fl f (skip_whitespace ts)) _
          (parse_unary-Within f (skip_whitespace ts) (length ts) (omega (arith, length-skip-le ts))
            (length-skip-le ts))
          (λ x less.
            products-Within f x.0 (skip_whitespace x.1) (length ts)
              (omega (arith, length-skip-le x.1)) (omega (arith, length-skip-le x.1)))

    products-Within :
        (f : ℕ) (left : F) (ts : Bytes) (n : ℕ)
        → 8 * length ts + 1 ≤ f
        → length ts < n
        → Within n (products fl f left ts)
    products-Within zero left ts n h less = absurd (omega arith)
    products-Within (suc f) left [] n h less = less
    products-Within (suc f) left (c ∷ cs) n h less =
        if_holds (Within n) (is_product_op c) _ _
          (λ e.
            Within-then n (length cs) (parse_unary fl f (skip_whitespace cs)) _
              (parse_unary-Within f (skip_whitespace cs) (length cs)
                (omega (arith, length-skip-le cs)) (length-skip-le cs))
              (λ x shorter.
                Within-value n (multiplied fl c left x.0) _ (multiplied-returns c left x.0) (λ v.
                  products-Within f v (skip_whitespace x.1) n (omega (arith, length-skip-le x.1))
                    (omega (arith, length-skip-le x.1)))))
          (λ e. less)

    parse_unary-Within :
        (f : ℕ) (ts : Bytes) (n : ℕ)
        → 8 * length ts + 5 ≤ f
        → length ts ≤ n
        → Within n (parse_unary fl f ts)
    parse_unary-Within zero ts n h less = absurd (omega arith)
    parse_unary-Within (suc f) [] n h less = parse_primary-Within f [] n (omega arith) less
    parse_unary-Within (suc f) (c ∷ cs) n h less =
        let after = if eqb c b'-' || eqb c b'+' then cs else c ∷ cs in
        let no_longer : length after ≤ suc (length cs) = ground arith in
        Within-then n n (parse_primary fl f (skip_whitespace after)) _
          (parse_primary-Within f (skip_whitespace after) n (omega (arith, length-skip-le after))
            (omega (arith, length-skip-le after)))
          (λ x shorter. shorter)

    parse_primary-Within :
        (f : ℕ) (ts : Bytes) (n : ℕ)
        → 8 * length ts + 3 ≤ f
        → length ts ≤ n
        → Within n (parse_primary fl f ts)
    parse_primary-Within zero ts n h less = absurd (omega arith)
    parse_primary-Within (suc f) [] n h less = tt
    parse_primary-Within (suc f) (c ∷ cs) n h less =
        if_holds (Within n) (eqb c b'(') _ _
          (λ e.
            Within-then n (length cs) (parse_add_sub fl f cs) _
              (parse_add_sub-Within f cs (omega arith))
              (λ x shorter.
                close-Within n x.0 (skip_whitespace x.1) (omega (arith, length-skip-le x.1))))
          (λ e.
            if_holds (Within n) (is_letter c) _ _
              (λ l.
                Within-longer (suc (length cs)) n (parse_func fl (parse_args fl f) (c ∷ cs)) less (
                  parse_func-Within (parse_args fl f) c cs l
                    (λ ds shorter. parse_args-Within f ds (omega arith))))
              (λ l.
                Within-longer (suc (length cs)) n (parse_number fl (c ∷ cs)) less
                  (parse_number-Within (c ∷ cs))))

    parse_args-Within :
        (f : ℕ) (ts : Bytes) → 8 * length ts + 9 ≤ f → Within (length ts) (parse_args fl f ts)
    parse_args-Within zero ts h = absurd (omega arith)
    parse_args-Within (suc f) ts h =
        if_holds (Within (length ts)) (closes (skip_whitespace ts)) _ _ (λ e. behind-lt ts e)
          (λ e. arguments-Within f [] ts (omega arith))

    arguments-Within :
        (f : ℕ) (args : List F) (ts : Bytes)
        → 8 * length ts + 8 ≤ f
        → Within (length ts) (arguments fl f args ts)
    arguments-Within zero args ts h = absurd (omega arith)
    arguments-Within (suc f) args ts h =
        Within-then (length ts) (length ts) (parse_add_sub fl f ts) _
          (parse_add_sub-Within f ts (omega arith))
          (λ x less.
            next_argument-Within f (args ++ x.0 ∷ []) (skip_whitespace x.1) (length ts)
              (omega (arith, length-skip-le x.1)) (omega (arith, length-skip-le x.1)))

    next_argument-Within :
        (f : ℕ) (args : List F) (ts : Bytes) (n : ℕ)
        → 8 * length ts + 1 ≤ f
        → length ts < n
        → Within n (next_argument fl f args ts)
    next_argument-Within zero args ts n h less = absurd (omega arith)
    next_argument-Within (suc f) args [] n h less = tt
    next_argument-Within (suc f) args (c ∷ cs) n h less =
        if_holds (Within n) (eqb c b')') _ _ (λ e. omega arith)
          (λ e.
            if_holds (Within n) (eqb c b',') _ _
              (λ g.
                Within-longer (length cs) n (arguments fl f args cs) (omega arith)
                  (arguments-Within f args cs (omega arith)))
              (λ g. tt))

  total_then :
      {A : Type 0} (n : ℕ) (o : Outcome (A × Bytes)) (k : A × Bytes → Outcome F)
      → Within n o
      → ((x : A × Bytes) → k x ≢ out_of_fuel)
      → and_then o k ≢ out_of_fuel
  total_then n (returns x) k h next = next x
  total_then n fails k h next = cc
  total_then n out_of_fuel k h next = absurd h

  -- Evaluation stops on every text, whatever its bytes and whatever trimming and the float
  -- operations do: the fuel of eight calls a byte, and eight more, is never used up.
  pub eval_expr_stops :
      (trim_space : Bytes → Bytes) (expr : Bytes) → eval_expr fl trim_space expr ≢ out_of_fuel
  unfolding eval_expr
  eval_expr_stops trim_space expr =
      let ts = trim_space expr in
      total_then (length ts) (parse_add_sub fl (8 * length ts + 8) ts) (finished fl)
        (parse_add_sub-Within (8 * length ts + 8) ts (omega arith)) (λ x. ground arith)
