-- ===== src/Riscof/Format.antt =====
-- The text operations of the plugins: `str.replace`, `str.format`, `str.join` and `str.split`.
pub mod Laws
pub mod Pieces
use sisrv_platform.Prelude.{
  ℕ, zero, suc, ◌+◌, ◌-◌, ◌*◌, Bool, true, false, Option, none, some, List, [], ◌∷◌, ◌++◌, Text,
  Result, ok, err, ◌>>=◌, starts_with, length, get_elem?, ◌==◌, if◌then◌else◌, is_digit, is_space,
}

-- s.replace(old, new) of a text that is not empty, with the characters that a match still covers.
unfoldable pub replace_from : Text → Text → ℕ → Text → Text
replace_from old new skip [] = []
replace_from old new (suc skip) (c ∷ s) = replace_from old new skip s
replace_from old new zero (c ∷ s) =
    let matched = new ++ replace_from old new (length old - 1) s in
    let kept = c ∷ replace_from old new zero s in if starts_with (c ∷ s) old then matched else kept

-- s.replace("", new)
unfoldable pub interleave : Text → Text → Text
interleave new [] = new
interleave new (c ∷ s) = new ++ c ∷ interleave new s

unfoldable pub replace : Text → Text → Text → Text
replace [] new s = interleave new s
replace (d ∷ old) new s = replace_from (d ∷ old) new 0 s

abbrev pub one_further : Option ℕ → Option ℕ
one_further none = none
one_further (some i) = some (suc i)

-- s.find(part), where none stands for -1
unfoldable pub find : Text → Text → Option ℕ
find [] part = if starts_with [] part then some 0 else none
find (c ∷ s) part =
    let later = one_further (find s part) in if starts_with (c ∷ s) part then some 0 else later

-- Why `str.format` raises.
pub data FormatError : Type 0 where
  bad_field : FormatError
  no_argument : ℕ → FormatError

-- Where `str.format` stands: in plain text, behind a brace, or in the number of a field.
pub data Place : Type 0 where
  plain : Place
  opened : Place
  closed : Place
  field_number : ℕ → Place

-- One character of the template: the text that it adds and the place behind it. A field is a number
-- in braces; the other forms, which no template here has, are refused.
unfoldable pub format_step : List Text → Place → ℕ → Result FormatError (Text × Place)
format_step args plain c =
    if c == b'{' then ok ([], opened) else if c == b'}' then ok ([], closed) else ok (c ∷ [], plain)
format_step args opened c =
    if c == b'{'
    then ok (c ∷ [], plain)
    else if is_digit c
    then ok ([], field_number (c - b'0'))
    else err bad_field
format_step args closed c = if c == b'}' then ok (c ∷ [], plain) else err bad_field
format_step args (field_number n) c =
    if c == b'}'
    then elim (get_elem? args n) [ none ↦ err (no_argument n) | some arg ↦ ok (arg, plain) ]
    else if is_digit c
    then ok ([], field_number (n * 10 + (c - b'0')))
    else err bad_field

unfoldable pub format_from : List Text → Place → Text → Result FormatError Text
format_from args plain [] = ok []
format_from args opened [] = err bad_field
format_from args closed [] = err bad_field
format_from args (field_number n) [] = err bad_field
format_from args place (c ∷ s) = do
  (out, next) ← format_step args place c
  rest ← format_from args next s
  ok (out ++ rest)

-- template.format(*args)
unfoldable pub format : Text → List Text → Result FormatError Text
format template args = format_from args plain template
