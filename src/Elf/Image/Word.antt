-- ===== src/Elf/Image/Word.antt =====
-- One word of the image: its bytes, its eight digits, and the number that they spell.
use sisrv_platform.Prelude.{
  ℕ, zero, suc, ◌+◌, ◌*◌, ◌/◌, ◌%◌, ◌^◌, ◌<◌, bit_or, ◌≡◌, refl, ◌∙◌, ◌∷◌, [], ◌++◌, inl, inr,
  arith, Text, Dict, lookup, lookup_or, Option-cases, All, All-lookup, format_08x, low_digits,
  parse_hex, hex_char, hex_value, length, length-append, bit_or_comm, bit_or_fields, bit_and_mask,
}
use native.Mathlib.Nat.{pow-suc, add-zero}
use sisrv_platform.Elf.Image.{align_down, word_at}

pub align_down_lem : (x : ℕ) → align_down x ≡ x / 4 * 4
unfolding align_down
align_down_lem x = omega (arith, bit_and_mask 2 x)

-- Every value of the dictionary is a byte.
abbrev pub IsByteDict : Dict → Type 0
IsByteDict = All (λ e. e.1 < 256)

pub lookup_or-lt : (d : Dict) (k : ℕ) → IsByteDict d → lookup_or d k 0 < 256
lookup_or-lt d k h = elim (Option-cases (lookup d k)) [
  | inl e ↦ rw e (omega arith)
  | inr (v, e) ↦ rw e (All-lookup (λ _ v. v < 256) d k h e)
]

bit_or_high : (k lo hi : ℕ) → lo < 2 ^ k → bit_or lo (hi * 2 ^ k) ≡ hi * 2 ^ k + lo
bit_or_high k lo hi fits = bit_or_comm lo (hi * 2 ^ k) ∙ bit_or_fields k hi lo fits

or_four :
    (b0 b1 b2 b3 : ℕ)
    → b0 < 256
    → b1 < 256
    → b2 < 256
    → b3 < 256
    → bit_or (bit_or (bit_or (bit_or 0 (b0 * 2 ^ 0)) (b1 * 2 ^ 8)) (b2 * 2 ^ 16)) (b3 * 2 ^ 24)
      ≡ b0 + b1 * 2 ^ 8 + b2 * 2 ^ 16 + b3 * 2 ^ 24
or_four b0 b1 b2 b3 h0 h1 h2 h3 =
    rw
      (
        bit_or_high 0 0 b0 (omega arith),
        bit_or_high 8 (b0 * 2 ^ 0 + 0) b1 (omega arith),
        bit_or_high 16 (b1 * 2 ^ 8 + (b0 * 2 ^ 0 + 0)) b2 (omega arith),
        bit_or_high 24 (b2 * 2 ^ 16 + (b1 * 2 ^ 8 + (b0 * 2 ^ 0 + 0))) b3 (omega arith),
      )
      (omega arith)

-- The word holds its four bytes, the byte at the lowest address lowest.
pub word_at_lem :
    (words : Dict) (addr : ℕ)
    → IsByteDict words
    → word_at words addr
      ≡ lookup_or words addr 0
        + lookup_or words (addr + 1) 0 * 2 ^ 8
        + lookup_or words (addr + 2) 0 * 2 ^ 16
        + lookup_or words (addr + 3) 0 * 2 ^ 24
unfolding word_at
word_at_lem words addr h = rw add-zero (
    or_four _ _ _ _ (lookup_or-lt words addr h) (lookup_or-lt words (addr + 1) h)
      (lookup_or-lt words (addr + 2) h) (lookup_or-lt words (addr + 3) h))

pub length-low_digits : (k n : ℕ) → length (low_digits k n) ≡ k
unfolding low_digits
length-low_digits zero n = refl
length-low_digits (suc k) n = omega (
  arith,
  length-append {0} (low_digits k (n / 16)) (hex_char (n % 16) ∷ []),
  length-low_digits k (n / 16),
)

hex_value-hex_char : (d : ℕ) → d < 16 → hex_value (hex_char d) ≡ d
hex_value-hex_char d h = ground arith

parse_hex-append : (n : ℕ) (s t : Text) → parse_hex n (s ++ t) ≡ parse_hex (parse_hex n s) t
unfolding parse_hex
parse_hex-append n [] t = refl
parse_hex-append n (c ∷ s) t = parse_hex-append (n * 16 + hex_value c) s t

-- The digits of a number that has at most k of them spell it.
pub parse_hex-low_digits : (k n : ℕ) → n < 16 ^ k → parse_hex 0 (low_digits k n) ≡ n
unfolding low_digits
parse_hex-low_digits zero n h = unfold parse_hex in omega arith
parse_hex-low_digits (suc k) n h =
    parse_hex-append 0 (low_digits k (n / 16)) (hex_char (n % 16) ∷ [])
    ∙ last_digit (parse_hex-low_digits k (n / 16) (omega (arith, pow-suc 16 k)))
  where
    last_digit : {m : ℕ} → m ≡ n / 16 → parse_hex m (hex_char (n % 16) ∷ []) ≡ n
    last_digit e = unfold parse_hex in omega (arith, e, hex_value-hex_char (n % 16) (omega arith))

pub format_08x_lem : (n : ℕ) → n < 2 ^ 32 → format_08x n ≡ low_digits 8 n
unfolding format_08x
format_08x_lem n h = let e : n / 16 ^ 8 ≡ 0 = omega arith in rw e
