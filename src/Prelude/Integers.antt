-- ===== src/Prelude/Integers.antt =====
-- Integers over the native numbers, and how Python's `int` reads them from a text of ASCII.
use Prim.Native.Nat.{ℕ, zero, suc, ◌+◌}
use mathlib.Core.Path.{◌≡◌, refl, ap}
use mathlib.Core.Bool.{Bool, true, false, not, ◌&&◌, ◌||◌}
use mathlib.Core.Option.{Option, none, some}
use mathlib.Core.List.{[], ◌∷◌}
use native.Mathlib.Omega.{arith}
use sisrv_platform.Prelude.Tests.{◌==◌, ==_iff, if◌then◌else◌}
use sisrv_platform.Prelude.Lists.{keep}
use sisrv_platform.Prelude.Strings.{Text, is_hex, is_digit, parse_hex}
use sisrv_platform.Prelude.Decimal.{parse_dec, format_dec}
use sisrv_platform.Prelude.Hex.{IsHex, Field, field_text, field_value}

-- `negsuc n` is -(n + 1).
pub data ℤ : Type 0 where
  pos : ℕ → ℤ
  negsuc : ℕ → ℤ

abbrev pub is_zero : ℤ → Bool
is_zero (pos n) = n == 0
is_zero (negsuc n) = false

pub is_zero-pos : (z : ℤ) → is_zero z ≡ true → z ≡ pos 0
is_zero-pos (pos n) h = ap pos ((==_iff n 0).0 h)
is_zero-pos (negsuc n) h = cc

unfoldable pub format_int : ℤ → Text
format_int (pos n) = format_dec n
format_int (negsuc n) = b'-' ∷ format_dec (n + 1)

abbrev pub with_sign : Bool → ℕ → ℤ
with_sign false n = pos n
with_sign true zero = pos 0
with_sign true (suc n) = negsuc n

-- Whether a text starts with a minus, and what stands behind its sign.
abbrev pub signed : Text → Bool × Text
signed [] = (false, [])
signed (c ∷ s) = if c == b'-' then (true, s) else if c == b'+' then (false, s) else (false, c ∷ s)

-- Digits with single underscores between them; whether a digit stands before the text is given.
unfoldable pub is_number : (ℕ → Bool) → Bool → Text → Bool
is_number digit behind [] = behind
is_number digit behind (c ∷ s) =
    let rest = is_number digit (not (c == b'_')) s in
    (if c == b'_' then behind else digit c) && rest

abbrev pub no_underscores : Text → Text
no_underscores = keep (λ c. not (c == b'_'))

abbrev pub int_digits : (digit : ℕ → Bool) → (value : Text → ℕ) → Bool → Text → Option ℤ
int_digits digit value minus s =
    if is_number digit false s then some (with_sign minus (value (no_underscores s))) else none

-- An underscore may stand behind the prefix.
abbrev pub skip_underscore : Text → Text
skip_underscore [] = []
skip_underscore (c ∷ s) = if c == b'_' then s else c ∷ s

-- What stands behind `0x` or `0X`, if that is there.
abbrev pub skip_prefix : Text → Text
skip_prefix [] = []
skip_prefix (c ∷ []) = c ∷ []
skip_prefix (c ∷ d ∷ s) =
    if c == b'0' && (d == b'x' || d == b'X') then skip_underscore s else c ∷ d ∷ s

-- int(s, 16) and int(s), of a text without white space at its ends; `none` is a ValueError.
unfoldable pub parse_int_16 : Text → Option ℤ
parse_int_16 s =
    let (minus, rest) = signed s in int_digits is_hex (parse_hex 0) minus (skip_prefix rest)

unfoldable pub parse_int_10 : Text → Option ℤ
parse_int_10 s = let (minus, rest) = signed s in int_digits is_digit (parse_dec 0) minus rest

hex_no_mark :
    (c : ℕ)
    → is_hex c ≡ true
    → ((c == b'-') ≡ false)
      × ((c == b'+') ≡ false)
      × ((c == b'_') ≡ false)
      × ((c == b'x') ≡ false)
      × ((c == b'X') ≡ false)
hex_no_mark c h = (ground arith, ground arith, ground arith, ground arith, ground arith)

is_number-hex : (s : Text) → IsHex s → is_number is_hex true s ≡ true
unfolding is_number
is_number-hex [] _ = refl
is_number-hex (c ∷ s) (h, hs) =
    let (_, _, plain, _, _) = hex_no_mark c h in rw (plain, h, is_number-hex s hs) refl

no_underscores-hex : (s : Text) → IsHex s → no_underscores s ≡ s
no_underscores-hex [] _ = refl
no_underscores-hex (c ∷ s) (h, hs) =
    let (_, _, plain, _, _) = hex_no_mark c h in rw plain (ap (◌∷◌ c) (no_underscores-hex s hs))

skip_prefix-hex : (s : Text) → IsHex s → skip_prefix s ≡ s
skip_prefix-hex [] _ = refl
skip_prefix-hex (c ∷ []) _ = refl
skip_prefix-hex (c ∷ d ∷ s) (_, (h, _)) =
    let (_, _, _, small, large) = hex_no_mark d h in ground (arith, small, large)

-- Hexadecimal digits alone are read as their number.
pub parse_int_16-field : (f : Field) → parse_int_16 (field_text f) ≡ some (pos (field_value f))
unfolding parse_int_16 is_number
parse_int_16-field f =
    let (minus, plus, plain, _, _) = hex_no_mark f.first f.digits.0 in
    rw
      (
        minus,
        plus,
        skip_prefix-hex (field_text f) f.digits,
        plain,
        f.digits.0,
        is_number-hex f.more f.digits.1,
        no_underscores-hex f.more f.digits.1,
      )
      refl
