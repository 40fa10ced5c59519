-- ===== src/Pii/Luhn.antt =====
-- The check digit of card numbers (internal/pii/patterns.go, luhnValid).
use mathlib.Core.List.{map-append}
use nexixai_agentos.Prelude.{
  ℕ, ◌%◌, ◌≤◌, ◌≡◌, ◌≢◌, refl, ap, ◌∙◌, sym, Bool, true, false, not, List, [], ◌∷◌, ◌++◌, arith,
  map, select, select-append, ◌-◌,
}
use nexixai_agentos.Pii.Patterns.{
  Bytes, is_digit, digits_of, weight, luhn_sum, are_valid, luhn_valid,
}

-- Two digits that weigh the same are the same.
weight-ne : (alt : Bool) (c d : ℕ) → c ≤ 9 → d ≤ 9 → c ≢ d → weight alt c % 10 ≢ weight alt d % 10
weight-ne true c d hc hd ne = ground arith
weight-ne false c d hc hd ne = ground arith

luhn_sum-one :
    (before after : List ℕ) (c d : ℕ)
    → c ≤ 9
    → d ≤ 9
    → c ≢ d
    → ((luhn_sum (before ++ c ∷ after)).0 ≡ (luhn_sum (before ++ d ∷ after)).0)
      × ((luhn_sum (before ++ c ∷ after)).1 % 10 ≢ (luhn_sum (before ++ d ∷ after)).1 % 10)
unfolding luhn_sum
luhn_sum-one [] after c d hc hd ne =
    (refl, λ same. weight-ne (luhn_sum after).0 c d hc hd ne (omega (arith, same)))
luhn_sum-one (b ∷ before) after c d hc hd ne =
    let ih = luhn_sum-one before after c d hc hd ne in
    (ap not ih.0, λ same. ih.1 (omega (arith, same, ap (λ (a : Bool). weight a b) ih.0)))

digits_of-append : (s t : Bytes) → digits_of (s ++ t) ≡ digits_of s ++ digits_of t
digits_of-append s t =
    ap (map (λ (c : ℕ). c - b'0')) (select-append is_digit s t)
    ∙ map-append (λ (c : ℕ). c - b'0') (select is_digit s) (select is_digit t)

digits_of-digit :
    (c : ℕ) (t : Bytes) → is_digit c ≡ true → digits_of (c ∷ t) ≡ (c - b'0') ∷ digits_of t
digits_of-digit c t h = rw h refl

other_sum :
    (xs ys : List ℕ)
    → (luhn_sum xs).1 % 10 ≢ (luhn_sum ys).1 % 10
    → are_valid xs ≡ true
    → are_valid ys ≡ false
other_sum xs ys h v = ground arith

-- A text passes the check of card numbers. Then the text with any one of its digits replaced by
-- another digit does not, whatever separators stand between the digits.
pub luhn_valid-one_digit :
    (before after : Bytes) (c d : ℕ)
    → is_digit c ≡ true
    → is_digit d ≡ true
    → c ≢ d
    → luhn_valid (before ++ c ∷ after) ≡ true
    → luhn_valid (before ++ d ∷ after) ≡ false
unfolding luhn_valid
luhn_valid-one_digit before after c d hc hd ne valid =
    let x : ℕ = c - b'0' in
    let y : ℕ = d - b'0' in
    let one =
      luhn_sum-one (digits_of before) (digits_of after) x y (ground arith) (ground arith)
        (ground arith) in
    let ec =
      digits_of-append before (c ∷ after)
      ∙ ap (λ l. digits_of before ++ l) (digits_of-digit c after hc) in
    let ed =
      digits_of-append before (d ∷ after)
      ∙ ap (λ l. digits_of before ++ l) (digits_of-digit d after hd) in
    ap are_valid ed
    ∙ other_sum (digits_of before ++ x ∷ digits_of after) (digits_of before ++ y ∷ digits_of after)
        one.1 (sym (ap are_valid ec) ∙ valid)
