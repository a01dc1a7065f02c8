-- ===== src/Bench/Printed.antt =====
-- A number that is printed in decimal is read back from a log line.
use sisrv_platform.Prelude.{
  parse_dec, format_dec, parse_dec-format_dec, IsDigits, format_dec-IsDigits, digit_no_space, ℕ,
  ◌≡◌, refl, ap, true, Option, some, ◌∷◌, ◌++◌, Text, All, ok, is_digit, is_space, span-append,
  run1-append, literal-append, arith,
}
use sisrv_platform.Bench.{int_at, search_starts, parse_int_line}

int_at-line :
    (key gap1 gap2 rest : Text) (c : ℕ) (s : Text)
    → All (λ x. is_space x ≡ true) gap1
    → All (λ x. is_space x ≡ true) gap2
    → IsDigits (c ∷ s)
    → int_at key (key ++ (gap1 ++ b':' ∷ (gap2 ++ ((c ∷ s) ++ 10 ∷ rest))))
      ≡ some (parse_dec 0 (c ∷ s))
unfolding int_at
int_at-line key gap1 gap2 rest c s g1 g2 digits = ground (
  arith,
  literal-append key (gap1 ++ b':' ∷ (gap2 ++ ((c ∷ s) ++ 10 ∷ rest))),
  span-append is_space gap1 (b':' ∷ (gap2 ++ ((c ∷ s) ++ 10 ∷ rest))) g1 refl,
  span-append is_space gap2 ((c ∷ s) ++ 10 ∷ rest) g2 (digit_no_space c digits.0),
  run1-append is_digit c s (10 ∷ rest) digits refl,
)

search_starts-first {ℓ} :
    {A : Type ℓ} (match_at : Text → Option A) (c : ℕ) (s : Text) {v : A}
    → match_at (c ∷ s) ≡ some v
    → search_starts match_at true (c ∷ s) ≡ some v
unfolding search_starts
search_starts-first match_at c s h = ground arith

-- A log whose first line is a key, white space, a colon, white space and a number in decimal gives
-- the number for the key, whatever follows the line.
pub parse_int_line-printed :
    (k : ℕ) (key gap1 gap2 rest : Text) (n : ℕ)
    → All (λ x. is_space x ≡ true) gap1
    → All (λ x. is_space x ≡ true) gap2
    → parse_int_line ((k ∷ key) ++ (gap1 ++ b':' ∷ (gap2 ++ (format_dec n ++ 10 ∷ rest)))) (k ∷ key)
      ≡ ok n
unfolding parse_int_line
parse_int_line-printed k key gap1 gap2 rest n g1 g2 =
    let (c, s, same, digits) = format_dec-IsDigits n in
    let line = key ++ (gap1 ++ b':' ∷ (gap2 ++ ((c ∷ s) ++ 10 ∷ rest))) in
    let value : parse_dec 0 (c ∷ s) ≡ n = rw (← same) (parse_dec-format_dec n) in
    let found : search_starts (int_at (k ∷ key)) true (k ∷ line) ≡ some (parse_dec 0 (c ∷ s)) =
      search_starts-first (int_at (k ∷ key)) k line
        (int_at-line (k ∷ key) gap1 gap2 rest c s g1 g2 digits) in
    rw same (rw (found, parse_int_line) (ap ok value))
