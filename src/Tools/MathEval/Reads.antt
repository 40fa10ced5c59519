-- ===== src/Tools/MathEval/Reads.antt =====
-- The parser reads what the grammar prints (internal/tools/math_eval.go).
use mathlib.Core.List.{append_assoc, append-nil}
use nexixai_agentos.Prelude.{
  ℕ, zero, suc, ◌+◌, ◌*◌, ◌≤◌, ◌≡◌, refl, sym, [], ◌∷◌, ◌++◌, if◌then◌else◌, length, length-append,
  arith,
}
use nexixai_agentos.Pii.Patterns.{Bytes}
use nexixai_agentos.Tools.MathEval.Scanner.{skip_whitespace}
use nexixai_agentos.Tools.MathEval.{
  Outcome, returns, fails, out_of_fuel, and_then, Floats, finished, eval_expr, parse_primary,
  parse_args, parse_unary, parse_add_sub, parse_mul_div, sums, products,
}
use nexixai_agentos.Tools.MathEval.Grammar.{
  Sum, Terms, Product, Factors, Unary, Primary, sum, no_terms, term, product, no_factors, factor,
  number, group, call_one, call_two, plain, negated, positive, name_of, print_sum, print_terms,
  print_product, print_factors, print_primary, print_unary, combined, value_sum, value_terms,
  value_product, value_factors, value_unary, value_primary,
}
use nexixai_agentos.Tools.MathEval.Tokens.{NumberEnd, skip-skip}
use nexixai_agentos.Tools.MathEval.Starts.{
  FollowsProduct, FollowsSum, skip-Begins, Starts-print_primary, Begins-print_unary,
  Begins-print_product, Begins-print_sum, NumberEnd-print_factors, FollowsProduct-print_terms,
  parse_primary-name_of, parse_primary-number, parse_unary-Starts, parse_unary-minus,
  parse_unary-plus,
}
use nexixai_agentos.Tools.MathEval.Steps.{
  read_then, then_both, then_same, name_length, Reads, Reads-on, Reads-same, sums_stop,
  products_stop, sums_term, products_factor, parse_primary-group, parse_args_some, arguments_end,
  arguments_comma, applied_one, applied_two, closing, comma, ending, spaced,
}

module _ {F : Type 0} (fl : Floats F) where
  -- A sum that is in front of a text, with what the parser does behind it.
  mutual
    unfolding parse_add_sub print_sum value_sum

    parse_add_sub-print_sum :
        (s : Sum) (rest : Bytes) (f : ℕ)
        → 8 * length (print_sum s) + 7 ≤ f
        → FollowsSum rest
        → Reads (parse_add_sub fl f (print_sum s ++ rest)) (value_sum fl s) (skip_whitespace rest)
    parse_add_sub-print_sum s rest zero h e = absurd (omega arith)
    parse_add_sub-print_sum (sum p ts) rest (suc f) h e =
        let long = length-append (print_product p) (print_terms ts) in
        let text =
          skip-Begins (print_product p ++ (print_terms ts ++ rest))
            (Begins-print_product p (print_terms ts ++ rest)) in
        rw
          (
            append_assoc (print_product p) (print_terms ts) rest,
            parse_mul_div-print_product p (print_product p ++ (print_terms ts ++ rest))
                (print_terms ts ++ rest) f text (omega (arith, long))
                (FollowsProduct-print_terms ts rest e),
          )
          (read_then (value_product fl p) (skip_whitespace (print_terms ts ++ rest)) _
            (λ v. value_terms fl v ts) _
            (λ v.
              rw (skip-skip (print_terms ts ++ rest))
                (sums-print_terms ts rest f v (omega (arith, long)) e)))

    sums-print_terms :
        (ts : Terms) (rest : Bytes) (f : ℕ) (left : F)
        → 8 * length (print_terms ts) + 1 ≤ f
        → FollowsSum rest
        → Reads
            (sums fl f left (skip_whitespace (print_terms ts ++ rest)))
            (value_terms fl left ts)
            (skip_whitespace rest)
    sums-print_terms ts rest zero left h e = absurd (omega arith)
    sums-print_terms no_terms rest (suc f) left h e = sums_stop fl f left (skip_whitespace rest) e.1
    sums-print_terms (term plus p ts) rest (suc f) left h e =
        let long = length-append (print_product p) (print_terms ts) in
        let more = print_product p ++ (print_terms ts ++ rest) in
        rw
          (
            append_assoc (print_product p) (print_terms ts) rest,
            sums_term fl plus f left (b' ' ∷ more),
            parse_mul_div-print_product p (b' ' ∷ more) (print_terms ts ++ rest) f
                (spaced more (Begins-print_product p (print_terms ts ++ rest)))
                (omega (arith, long)) (FollowsProduct-print_terms ts rest e),
          )
          (read_then (value_product fl p) (skip_whitespace (print_terms ts ++ rest)) _
            (λ v. value_terms fl (if plus then fl.add left v else fl.sub left v) ts) _
            (λ v. rw (skip-skip (print_terms ts ++ rest)) (
              sums-print_terms ts rest f (if plus then fl.add left v else fl.sub left v)
                (omega (arith, long)) e)))

    parse_mul_div-print_product :
        (p : Product) (text rest : Bytes) (f : ℕ)
        → skip_whitespace text ≡ print_product p ++ rest
        → 8 * length (print_product p) + 6 ≤ f
        → FollowsProduct rest
        → Reads (parse_mul_div fl f text) (value_product fl p) (skip_whitespace rest)
    parse_mul_div-print_product p text rest zero t h e = absurd (omega arith)
    parse_mul_div-print_product (product u fs) text rest (suc f) t h e =
        let long = length-append (print_unary u) (print_factors fs) in
        rw
          (
            t,
            append_assoc (print_unary u) (print_factors fs) rest,
            parse_unary-print_unary u (print_factors fs ++ rest) f (omega (arith, long))
                (NumberEnd-print_factors fs rest e.0),
          )
          (read_then (value_unary fl u) (print_factors fs ++ rest) _ (λ v. value_factors fl v fs) _
            (λ v. products-print_factors fs rest f v (omega (arith, long)) e))

    products-print_factors :
        (fs : Factors) (rest : Bytes) (f : ℕ) (left : F)
        → 8 * length (print_factors fs) + 1 ≤ f
        → FollowsProduct rest
        → Reads
            (products fl f left (skip_whitespace (print_factors fs ++ rest)))
            (value_factors fl left fs)
            (skip_whitespace rest)
    products-print_factors fs rest zero left h e = absurd (omega arith)
    products-print_factors no_factors rest (suc f) left h e =
        products_stop fl f left (skip_whitespace rest) e.1
    products-print_factors (factor op u fs) rest (suc f) left h e =
        let long = length-append (print_unary u) (print_factors fs) in
        let more = print_unary u ++ (print_factors fs ++ rest) in
        rw
          (
            append_assoc (print_unary u) (print_factors fs) rest,
            products_factor fl op f left more,
            skip-Begins more (Begins-print_unary u (print_factors fs ++ rest)),
            parse_unary-print_unary u (print_factors fs ++ rest) f (omega (arith, long))
                (NumberEnd-print_factors fs rest e.0),
          )
          (read_then (value_unary fl u) (print_factors fs ++ rest) _
            (λ right. and_then (combined fl op left right) (λ v. value_factors fl v fs)) _
            (λ right.
              then_both (combined fl op left right) _ (λ v. value_factors fl v fs) _
                (λ v. products-print_factors fs rest f v (omega (arith, long)) e)))

    parse_unary-print_unary :
        (u : Unary) (rest : Bytes) (f : ℕ)
        → 8 * length (print_unary u) + 5 ≤ f
        → NumberEnd rest
        → Reads (parse_unary fl f (print_unary u ++ rest)) (value_unary fl u) rest
    parse_unary-print_unary u rest zero h e = absurd (omega arith)
    parse_unary-print_unary (plain p) rest (suc f) h e =
        rw (parse_unary-Starts fl f (print_primary p ++ rest) (Starts-print_primary p rest)) (
          Reads-same (value_primary fl p) rest _
            (parse_primary-print_primary p rest f (omega arith) e))
    parse_unary-print_unary (negated p) rest (suc f) h e =
        rw (parse_unary-minus fl f (print_primary p ++ rest) (Starts-print_primary p rest)) (
          Reads-on (value_primary fl p) rest fl.neg _
            (parse_primary-print_primary p rest f (omega arith) e))
    parse_unary-print_unary (positive p) rest (suc f) h e =
        rw (parse_unary-plus fl f (print_primary p ++ rest) (Starts-print_primary p rest)) (
          Reads-same (value_primary fl p) rest _
            (parse_primary-print_primary p rest f (omega arith) e))

    parse_primary-print_primary :
        (p : Primary) (rest : Bytes) (f : ℕ)
        → 8 * length (print_primary p) + 3 ≤ f
        → NumberEnd rest
        → Reads (parse_primary fl f (print_primary p ++ rest)) (value_primary fl p) rest
    parse_primary-print_primary p rest zero h e = absurd (omega arith)
    parse_primary-print_primary (number c cs ds) rest (suc f) h e =
        parse_primary-number fl c cs rest f ds e
    parse_primary-print_primary (group s) rest (suc f) h e =
        let long = length-append (print_sum s) (b')' ∷ []) in
        rw (append_assoc (print_sum s) (b')' ∷ []) rest) (
          parse_primary-group fl f (value_sum fl s) (print_sum s ++ b')' ∷ rest) rest
            (parse_add_sub-print_sum s (b')' ∷ rest) f (omega (arith, long)) (closing rest)))
    parse_primary-print_primary (call_one fn s) rest (suc f) h e =
        let tail = print_sum s ++ b')' ∷ [] in
        let long = length-append (name_of fn) (b'(' ∷ tail) in
        let longer = length-append (print_sum s) (b')' ∷ []) in
        rw
          (
            append_assoc (name_of fn) (b'(' ∷ tail) rest,
            append_assoc (print_sum s) (b')' ∷ []) rest,
            parse_primary-name_of fl fn f (print_sum s ++ b')' ∷ rest),
            parse_args-one s rest f (omega (arith, long, longer, name_length fn)),
          )
          (applied_one fl fn (value_sum fl s) rest)
    parse_primary-print_primary (call_two fn s t) rest (suc f) h e =
        let last = print_sum t ++ b')' ∷ [] in
        let tail = print_sum s ++ b',' ∷ last in
        let long = length-append (name_of fn) (b'(' ∷ tail) in
        let longer = length-append (print_sum s) (b',' ∷ last) in
        let longest = length-append (print_sum t) (b')' ∷ []) in
        rw
          (
            append_assoc (name_of fn) (b'(' ∷ tail) rest,
            append_assoc (print_sum s) (b',' ∷ last) rest,
            append_assoc (print_sum t) (b')' ∷ []) rest,
            parse_primary-name_of fl fn f (print_sum s ++ b',' ∷ (print_sum t ++ b')' ∷ rest)),
            parse_args-two s t rest f (omega (arith, long, longer, longest, name_length fn)),
          )
          (applied_two fl fn (value_sum fl s) (value_sum fl t) rest)

    parse_args-one :
        (s : Sum) (rest : Bytes) (f : ℕ)
        → 8 * length (print_sum s) + 10 ≤ f
        → parse_args fl f (print_sum s ++ b')' ∷ rest)
          ≡ and_then (value_sum fl s) (λ v. returns (v ∷ [], rest))
    parse_args-one s rest zero h = absurd (omega arith)
    parse_args-one s rest (suc zero) h = absurd (omega arith)
    parse_args-one s rest (suc (suc zero)) h = absurd (omega arith)
    parse_args-one s rest (suc (suc (suc f))) h =
        rw
          (parse_args_some fl (suc (suc f)) (print_sum s ++ b')' ∷ rest)
            (Begins-print_sum s (b')' ∷ rest)))
          (arguments_end fl f [] (value_sum fl s) (print_sum s ++ b')' ∷ rest) rest
            (parse_add_sub-print_sum s (b')' ∷ rest) (suc f) (omega arith) (closing rest)))

    parse_args-two :
        (s t : Sum) (rest : Bytes) (f : ℕ)
        → 8 * length (print_sum s) + 8 * length (print_sum t) + 20 ≤ f
        → parse_args fl f (print_sum s ++ b',' ∷ (print_sum t ++ b')' ∷ rest))
          ≡ and_then
              (value_sum fl s)
              (λ x. and_then (value_sum fl t) (λ y. returns (x ∷ y ∷ [], rest)))
    parse_args-two s t rest zero h = absurd (omega arith)
    parse_args-two s t rest (suc zero) h = absurd (omega arith)
    parse_args-two s t rest (suc (suc zero)) h = absurd (omega arith)
    parse_args-two s t rest (suc (suc (suc zero))) h = absurd (omega arith)
    parse_args-two s t rest (suc (suc (suc (suc zero)))) h = absurd (omega arith)
    parse_args-two s t rest (suc (suc (suc (suc (suc f))))) h =
        let second = print_sum t ++ b')' ∷ rest in
        let first = print_sum s ++ b',' ∷ second in
        rw
          (
            parse_args_some fl (suc (suc (suc (suc f)))) first (Begins-print_sum s (b',' ∷ second)),
            arguments_comma fl (suc (suc f)) [] (value_sum fl s) first second (
                parse_add_sub-print_sum s (b',' ∷ second) (suc (suc (suc f))) (omega arith)
                  (comma second)),
          )
          (then_same (value_sum fl s) _ _ (λ x.
            arguments_end fl f (x ∷ []) (value_sum fl t) second rest
              (parse_add_sub-print_sum t (b')' ∷ rest) (suc f) (omega arith) (closing rest))))

  finished_all :
      (o : Outcome F)
      → and_then (and_then o (λ v. returns (v, skip_whitespace []))) (finished fl) ≡ o
  unfolding skip_whitespace
  finished_all (returns v) = refl
  finished_all fails = refl
  finished_all out_of_fuel = refl

  parse_add_sub_whole :
      (s : Sum) (f : ℕ)
      → 8 * length (print_sum s) + 7 ≤ f
      → Reads (parse_add_sub fl f (print_sum s)) (value_sum fl s) (skip_whitespace [])
  parse_add_sub_whole s f h =
      rw (sym (append-nil (print_sum s))) (parse_add_sub-print_sum s [] f h ending)

  -- A text that is, once trimmed, what a sum prints is worth what the grammar says, an error
  -- (division by zero, a number that is not parsed, a wrong count of arguments) included: products
  -- bind closer than sums, both associate to the left, and a sign belongs to its operand.
  pub eval_expr-print_sum :
      (trim_space : Bytes → Bytes) (expr : Bytes) (s : Sum)
      → trim_space expr ≡ print_sum s
      → eval_expr fl trim_space expr ≡ value_sum fl s
  unfolding eval_expr
  eval_expr-print_sum trim_space expr s h =
      rw (h, parse_add_sub_whole s (8 * length (print_sum s) + 8) (omega arith))
        (finished_all (value_sum fl s))
