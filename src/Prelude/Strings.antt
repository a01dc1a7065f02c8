-- ===== src/Prelude/Strings.antt =====
-- Text as the list of its code points, and the Python string operations that the programs use.
use Prim.Native.Nat.{ℕ, zero, suc, ◌+◌, ◌-◌, ◌*◌, ◌/◌, ◌%◌, ◌^◌}
use Prim.Native.Char.{code}
use Prim.Native.String.{String}
use mathlib.Core.Bool.{Bool, true, false, ◌&&◌, ◌||◌}
use mathlib.Core.List.{List, [], ◌∷◌, ◌++◌}
use sisrv_platform.Prelude.Tests.{ltb, leb, ◌==◌, if◌then◌else◌}

abbrev pub Text : Type 0
Text = List ℕ

abbrev pub codes : String → Text
codes String.[] = []
codes (String.◌∷◌ c s) = code c ∷ codes s

-- s == t on whole texts
abbrev pub eq_text : Text → Text → Bool
eq_text [] [] = true
eq_text [] (d ∷ t) = false
eq_text (c ∷ s) [] = false
eq_text (c ∷ s) (d ∷ t) = c == d && eq_text s t

-- s.startswith(p)
abbrev pub starts_with : Text → Text → Bool
starts_with s [] = true
starts_with [] (d ∷ p) = false
starts_with (c ∷ s) (d ∷ p) = c == d && starts_with s p

-- part in s
abbrev pub contains : Text → Text → Bool
contains [] part = starts_with [] part
contains (c ∷ s) part = starts_with (c ∷ s) part || contains s part

-- One hexadecimal digit, in lower case.
abbrev pub hex_char : ℕ → ℕ
hex_char d = if ltb d 10 then 48 + d else 87 + d

-- The k lowest hexadecimal digits of n, the highest first.
unfoldable pub low_digits : ℕ → ℕ → Text
low_digits zero n = []
low_digits (suc k) n = low_digits k (n / 16) ++ hex_char (n % 16) ∷ []

-- The digits above the eighth, which the format writes only where the number has them.
unfoldable pub high_digits : ℕ → ℕ → Text
high_digits zero n = []
high_digits (suc fuel) n =
    let rest = high_digits fuel (n / 16) ++ hex_char (n % 16) ∷ [] in if n == 0 then [] else rest

-- f"{n:08x}"
unfoldable pub format_08x : ℕ → Text
unfolding low_digits high_digits
format_08x n = high_digits (n / 16 ^ 8) (n / 16 ^ 8) ++ low_digits 8 n

abbrev pub is_digit : ℕ → Bool
is_digit c = leb b'0' c && leb c b'9'

abbrev pub is_hex : ℕ → Bool
is_hex c = is_digit c || (leb b'a' c && leb c b'f') || (leb b'A' c && leb c b'F')

-- The value of a hexadecimal digit of either case.
abbrev pub hex_value : ℕ → ℕ
hex_value c = if leb c b'9' then c - 48 else if leb c b'F' then c - 55 else c - 87

-- int(s, 16) on a text of hexadecimal digits, behind the value read so far.
unfoldable pub parse_hex : ℕ → Text → ℕ
parse_hex n [] = n
parse_hex n (c ∷ s) = parse_hex (n * 16 + hex_value c) s

-- Python's split into lines; \r\n is one break, and a break at the end opens no line.
abbrev pub is_break : ℕ → Bool
is_break c = (leb 10 c && leb c 13) || (leb 28 c && leb c 30)

abbrev pub is_space : ℕ → Bool
is_space c = (leb 9 c && leb c 13) || (leb 28 c && leb c 32)

-- One character of s.lower(), for ASCII text.
abbrev pub lower : ℕ → ℕ
lower c = if leb b'A' c && leb c b'Z' then c + 32 else c

-- s.rsplit(sep, 1)[-1], behind what is read of the last part so far; without a separator, s itself.
unfoldable pub after_last : ℕ → Text → Text → Text
after_last sep [] seen = seen
after_last sep (c ∷ s) seen = after_last sep s (if c == sep then [] else seen ++ c ∷ [])

-- s <= t on texts
abbrev pub text_le : Text → Text → Bool
text_le [] t = true
text_le (c ∷ s) [] = false
text_le (c ∷ s) (d ∷ t) = ltb c d || (c == d && text_le s t)

-- sep.join(parts)
unfoldable pub join_with : Text → List Text → Text
join_with sep [] = []
join_with sep (part ∷ []) = part
join_with sep (part ∷ next ∷ parts) = part ++ (sep ++ join_with sep (next ∷ parts))

-- s.split(), behind what is read of the current word
unfoldable pub words_from : Text → Text → List Text
words_from [] [] = []
words_from (d ∷ cur) [] = (d ∷ cur) ∷ []
words_from cur (c ∷ s) =
    let longer = words_from (cur ++ c ∷ []) s in
    let next = words_from [] s in
    if is_space c then elim cur [ [] ↦ next | d ∷ word ↦ (d ∷ word) ∷ next ] else longer

abbrev pub words : Text → List Text
words s = words_from [] s
