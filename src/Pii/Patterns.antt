-- ===== src/Pii/Patterns.antt =====
-- internal/pii/patterns.go. The regular expressions are the argument `find_all` of those who scan.
use nexixai_agentos.Prelude.{string_key}
use nexixai_agentos.Prelude.{
  ℕ, ◌+◌, ◌-◌, ◌*◌, ◌%◌, String, Bool, true, false, not, Option, none, some, List, [], ◌∷◌, ◌&&◌,
  ◌||◌, if◌then◌else◌, ltb, leb, eqb, length, select, map,
}
use nexixai_agentos.Prelude.Dict.{Dict}

abbrev pub Bytes : Type 0
Bytes = List ℕ

abbrev pub is_digit : ℕ → Bool
is_digit c = leb b'0' c && leb c b'9'

abbrev pub digits_of : Bytes → List ℕ
digits_of s = map (λ c. c - b'0') (select is_digit s)

-- What a digit adds to the sum; every other one, from the right, counts double.
abbrev pub weight : Bool → ℕ → ℕ
weight false d = d
weight true d = if ltb 9 (d * 2) then d * 2 - 9 else d * 2

-- The loop from the last digit to the first: `alt` is that of the digit before the first, and the
-- sum that of all.
unfoldable pub luhn_sum : List ℕ → Bool × ℕ
luhn_sum [] = (false, 0)
luhn_sum (d ∷ digits) = let (alt, sum) = luhn_sum digits in (not alt, sum + weight alt d)

abbrev pub are_valid : List ℕ → Bool
are_valid digits =
    if ltb (length digits) 13 || ltb 19 (length digits)
    then false
    else eqb ((luhn_sum digits).1 % 10) 0

unfoldable pub luhn_valid : Bytes → Bool
luhn_valid s = are_valid (digits_of s)

pub record PatternDef : Type 0 where
  pub name : String
  pub placeholder : String
  pub priority : ℕ
  pub validate : Option (Bytes → Bool)

abbrev pub ssn : PatternDef
ssn = record { name = "ssn"; placeholder = "[SSN]"; priority = 1; validate = none }

abbrev pub credit_card : PatternDef
credit_card = record {
  name = "credit_card";
  placeholder = "[CREDIT_CARD]";
  priority = 2;
  validate = some luhn_valid;
}

abbrev pub email : PatternDef
email = record { name = "email"; placeholder = "[EMAIL]"; priority = 3; validate = none }

abbrev pub phone : PatternDef
phone = record { name = "phone"; placeholder = "[PHONE]"; priority = 4; validate = none }

abbrev pub ip_address : PatternDef
ip_address = record {
  name = "ip_address";
  placeholder = "[IP_ADDRESS]";
  priority = 5;
  validate = none;
}

abbrev pub builtin_patterns : Dict String PatternDef
builtin_patterns =
    ("email", email)
    ∷ ("phone", phone)
    ∷ ("ssn", ssn)
    ∷ ("credit_card", credit_card)
    ∷ ("ip_address", ip_address)
    ∷ []

abbrev pub pattern_order : List PatternDef
pattern_order = ssn ∷ credit_card ∷ email ∷ phone ∷ ip_address ∷ []
