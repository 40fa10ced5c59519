-- ===== src/Tools/MathEval/Scanner.antt =====
-- The bytes of arithmetic expressions (internal/tools/math_eval.go). `unicode` is asked about single
-- bytes as code points, that is in Latin-1.
use nexixai_agentos.Prelude.{
  ℕ, ◌+◌, Bool, true, false, [], ◌∷◌, ◌++◌, ◌&&◌, ◌||◌, if◌then◌else◌, leb, eqb,
}
use nexixai_agentos.Pii.Patterns.{Bytes, is_digit}

abbrev within : ℕ → ℕ → ℕ → Bool
within lo hi c = leb lo c && leb c hi

-- unicode.IsSpace
abbrev pub is_space : ℕ → Bool
is_space c = within 9 13 c || eqb c 32 || eqb c 133 || eqb c 160

-- unicode.IsLetter
unfoldable pub is_letter : ℕ → Bool
is_letter c =
    within 65 90 c
    || within 97 122 c
    || eqb c 170
    || eqb c 181
    || eqb c 186
    || within 192 214 c
    || within 216 246 c
    || within 248 255 c

abbrev pub is_word : ℕ → Bool
is_word c = is_letter c || is_digit c

abbrev pub lower : ℕ → ℕ
lower c = if within 65 90 c then c + 32 else c

unfoldable pub skip_whitespace : Bytes → Bytes
skip_whitespace [] = []
skip_whitespace (c ∷ cs) = if is_space c then skip_whitespace cs else c ∷ cs

-- The longest start whose bytes pass a test, and the rest.
unfoldable pub span : (ℕ → Bool) → Bytes → Bytes × Bytes
span p [] = ([], [])
span p (c ∷ cs) = let (a, b) = span p cs in if p c then (c ∷ a, b) else ([], c ∷ cs)

abbrev pub same_bytes : Bytes → Bytes → Bool
same_bytes [] [] = true
same_bytes [] (c ∷ cs) = false
same_bytes (c ∷ cs) [] = false
same_bytes (c ∷ cs) (d ∷ ds) = eqb c d && same_bytes cs ds

-- A sign, if the text starts with one.
abbrev pub sign : Bytes → Bytes × Bytes
sign [] = ([], [])
sign (c ∷ cs) = if eqb c b'+' || eqb c b'-' then (c ∷ [], cs) else ([], c ∷ cs)

-- A point and digits, if the text goes on so.
abbrev pub fraction : Bytes → Bytes × Bytes × Bytes
fraction [] = ([], [], [])
fraction (c ∷ cs) =
    let (digits, rest) = span is_digit cs in
    if eqb c b'.' then (c ∷ [], digits, rest) else ([], [], c ∷ cs)

abbrev pub signed_digits : Bytes → Bytes × Bytes
signed_digits cs =
    let (s, cs') = sign cs in let (digits, rest) = span is_digit cs' in (s ++ digits, rest)

abbrev pub exponent : Bytes → Bytes × Bytes
exponent [] = ([], [])
exponent (c ∷ cs) =
    let (digits, rest) = signed_digits cs in
    if eqb c b'e' || eqb c b'E' then (c ∷ digits, rest) else ([], c ∷ cs)

abbrev pub is_empty : Bytes → Bool
is_empty [] = true
is_empty (c ∷ cs) = false

-- A number as it is scanned: whether it has a digit, its text, and the rest.
pub record Literal : Type 0 where
  pub has_digit : Bool
  pub text : Bytes
  pub rest : Bytes

unfoldable pub literal : Bytes → Literal
literal ts =
    let (s, a) = sign ts in
    let (whole, b) = span is_digit a in
    let (point, digits, c) = fraction b in
    let (exp, d) = exponent c in
    record {
      has_digit = if is_empty whole then (if is_empty digits then false else true) else true;
      text = s ++ (whole ++ (point ++ (digits ++ exp)));
      rest = d;
    }
