-- ===== src/Prelude/Decimal.antt =====
-- Numbers in decimal: `str(n)` and `int(s)`.
use Prim.Native.Nat.{ℕ, zero, suc, ◌+◌, ◌-◌, ◌*◌, ◌/◌, ◌%◌, ◌<◌}
use mathlib.Core.Path.{◌≡◌, ◌∙◌, ap}
use mathlib.Core.Logic.{inl, inr}
use mathlib.Core.Bool.{true, false}
use mathlib.Core.List.{[], ◌∷◌}
use native.Mathlib.Omega.{arith}
use sisrv_platform.Prelude.Tests.{ltb, if◌then◌else◌, Bool-cases}
use sisrv_platform.Prelude.Lists.{All}
use sisrv_platform.Prelude.Strings.{Text, is_digit, is_space}

-- int(s) on decimal digits, behind the value read so far.
unfoldable pub parse_dec : ℕ → Text → ℕ
parse_dec n [] = n
parse_dec n (c ∷ s) = parse_dec (n * 10 + (c - b'0')) s

-- str(n), behind the digits that follow; the fuel is at least the number of digits.
unfoldable pub dec_digits : ℕ → ℕ → Text → Text
dec_digits zero n behind = behind
dec_digits (suc fuel) n behind =
    let more = dec_digits fuel (n / 10) ((b'0' + n % 10) ∷ behind) in
    if ltb n 10 then (b'0' + n) ∷ behind else more

unfoldable pub format_dec : ℕ → Text
unfolding dec_digits
format_dec n = dec_digits (suc n) n []

parse_dec-dec_digits :
    (fuel n : ℕ) (behind : Text)
    → n < fuel
    → parse_dec 0 (dec_digits fuel n behind) ≡ parse_dec n behind
unfolding dec_digits
parse_dec-dec_digits zero n behind h = absurd (omega arith)
parse_dec-dec_digits (suc fuel) n behind h = elim (Bool-cases (ltb n 10)) [
  | inl last ↦
      let value : 0 * 10 + (b'0' + n - b'0') ≡ n = omega arith in
      rw last (unfold parse_dec in ap (λ (t : ℕ). parse_dec t behind) value)
  | inr more ↦
      let value : n / 10 * 10 + (b'0' + n % 10 - b'0') ≡ n = omega arith in
      rw more (
        parse_dec-dec_digits fuel (n / 10) ((b'0' + n % 10) ∷ behind) (ground arith)
        ∙ unfold parse_dec in ap (λ (t : ℕ). parse_dec t behind) value)
]

-- What is read from the decimal digits of a number is the number.
pub parse_dec-format_dec : (n : ℕ) → parse_dec 0 (format_dec n) ≡ n
unfolding format_dec parse_dec
parse_dec-format_dec n = parse_dec-dec_digits (suc n) n [] (omega arith)

abbrev pub IsDigits : Text → Type 0
IsDigits = All (λ c. is_digit c ≡ true)

digit_is_digit : (d : ℕ) → d < 10 → is_digit (b'0' + d) ≡ true
digit_is_digit d h = ground arith

-- The digits are digits, and there is one.
dec_digits-IsDigits :
    (fuel n : ℕ) (behind : Text)
    → n < fuel
    → IsDigits behind
    → (c : ℕ) × (s : Text) × (dec_digits fuel n behind ≡ c ∷ s) × IsDigits (c ∷ s)
unfolding dec_digits
dec_digits-IsDigits zero n behind h d = absurd (omega arith)
dec_digits-IsDigits (suc fuel) n behind h d = elim (Bool-cases (ltb n 10)) [
  | inl last ↦ (b'0' + n, behind, rw last, (digit_is_digit n (ground arith), d))
  | inr more ↦
      let (c, s, same, digits) =
        dec_digits-IsDigits fuel (n / 10) ((b'0' + n % 10) ∷ behind) (ground arith)
          (digit_is_digit (n % 10) (omega arith), d) in
      (c, s, rw more same, digits)
]

pub format_dec-IsDigits : (n : ℕ) → (c : ℕ) × (s : Text) × (format_dec n ≡ c ∷ s) × IsDigits (c ∷ s)
unfolding format_dec
format_dec-IsDigits n = dec_digits-IsDigits (suc n) n [] (omega arith) tt

pub digit_no_space : (c : ℕ) → is_digit c ≡ true → is_space c ≡ false
digit_no_space c h = ground arith
