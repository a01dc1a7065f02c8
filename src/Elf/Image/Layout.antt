-- ===== src/Elf/Image/Layout.antt =====
-- Where a byte of the image stands in the text: the word of its line, eight digits and a newline
-- to a line.
use native.Mathlib.Nat.{add-zero}
use sisrv_platform.Prelude.{
  ℕ, zero, suc, ◌+◌, ◌-◌, ◌*◌, ◌/◌, ◌%◌, ◌^◌, ◌<◌, ◌≡◌, refl, sym, ◌∙◌, ap, ◌∷◌, [], ◌++◌, inl, inr,
  arith, List, Text, Dict, lookup_or, Bool-cases, ltb, ltb→lt, if◌then◌else◌, take, drop,
  drop-append, take-append, drop-nil, parse_hex, length, length-append, append_assoc, low_digits,
  format_08x,
}
use sisrv_platform.Elf.Image.{word_at, hex_lines, join_lines}
use sisrv_platform.Elf.Image.Word.{
  IsByteDict, lookup_or-lt, word_at_lem, length-low_digits, parse_hex-low_digits, format_08x_lem,
}

-- The byte that `$readmemh` puts i bytes above the base of the memory.
abbrev pub image_byte : Text → ℕ → ℕ
image_byte text i = parse_hex 0 (take 8 (drop (9 * (i / 4)) text)) / 256 ^ (i % 4) % 256

pub image_byte-nil : (i : ℕ) → image_byte [] i ≡ 0
unfolding parse_hex
image_byte-nil i = rw (drop-nil {A = ℕ} (9 * (i / 4))) (omega arith)

join_lines-cons :
    (line : Text) (lines : List Text) → join_lines (line ∷ lines) ≡ line ++ 10 ∷ join_lines lines
unfolding join_lines
join_lines-cons line [] = refl
join_lines-cons line (next ∷ lines) = refl

word_at-lt : (words : Dict) (addr : ℕ) → IsByteDict words → word_at words addr < 2 ^ 32
word_at-lt words addr h = omega (
  arith,
  word_at_lem words addr h,
  lookup_or-lt words addr h,
  lookup_or-lt words (addr + 1) h,
  lookup_or-lt words (addr + 2) h,
  lookup_or-lt words (addr + 3) h,
)

-- A family over the four bytes of a word.
below_four : (P : ℕ → Type 0) (i : ℕ) → i < 4 → P 0 → P 1 → P 2 → P 3 → P i
below_four P zero h p0 p1 p2 p3 = p0
below_four P (suc zero) h p0 p1 p2 p3 = p1
below_four P (suc (suc zero)) h p0 p1 p2 p3 = p2
below_four P (suc (suc (suc zero))) h p0 p1 p2 p3 = p3
below_four P (suc (suc (suc (suc i)))) h p0 p1 p2 p3 = absurd (omega arith)

-- Byte i of a word is the byte of its address.
word_at-byte :
    (words : Dict) (addr i : ℕ)
    → IsByteDict words
    → i < 4
    → word_at words addr / 256 ^ i % 256 ≡ lookup_or words (addr + i) 0
word_at-byte words addr i h small = bytes i small
  where
    digits :
        (w b0 b1 b2 b3 : ℕ)
        → w ≡ b0 + b1 * 2 ^ 8 + b2 * 2 ^ 16 + b3 * 2 ^ 24
        → b0 < 256
        → b1 < 256
        → b2 < 256
        → b3 < 256
        → (w / 256 ^ 0 % 256 ≡ b0)
          × (w / 256 ^ 1 % 256 ≡ b1)
          × (w / 256 ^ 2 % 256 ≡ b2)
          × (w / 256 ^ 3 % 256 ≡ b3)
    digits w b0 b1 b2 b3 e p q r s = omega arith

    bytes : (i : ℕ) → i < 4 → word_at words addr / 256 ^ i % 256 ≡ lookup_or words (addr + i) 0
    bytes i p =
        let (e0, e1, e2, e3) =
          digits (word_at words addr) _ _ _ _ (word_at_lem words addr h) (lookup_or-lt words addr h)
            (lookup_or-lt words (addr + 1) h) (lookup_or-lt words (addr + 2) h)
            (lookup_or-lt words (addr + 3) h) in
        below_four (λ k. word_at words addr / 256 ^ k % 256 ≡ lookup_or words (addr + k) 0) i p
          (rw add-zero e0) e1 e2 e3

module _ (w : ℕ) (fits : w < 2 ^ 32) (rest : Text) where
  line_text : Text
  line_text = low_digits 8 w ++ 10 ∷ rest

  image_byte-line : (i : ℕ) → i < 4 → image_byte line_text i ≡ w / 256 ^ i % 256
  unfolding line_text
  image_byte-line i small =
      let top : i / 4 ≡ 0 = omega arith in
      let low : i % 4 ≡ i = omega arith in
      rw (
        top,
        low,
        take-append (low_digits 8 w) (10 ∷ rest) 8 (sym (length-low_digits 8 w)),
        parse_hex-low_digits 8 w (omega arith),
      )

  image_byte-below : (i : ℕ) → image_byte line_text (i + 4) ≡ image_byte rest i
  unfolding line_text
  image_byte-below i =
      let up : (i + 4) / 4 ≡ i / 4 + 1 = omega arith in
      let same : (i + 4) % 4 ≡ i % 4 = omega arith in
      let nine : 9 * (i / 4 + 1) ≡ length (low_digits 8 w ++ 10 ∷ []) + 9 * (i / 4) =
        omega (arith, length-append {0} (low_digits 8 w) (10 ∷ []), length-low_digits 8 w) in
      rw (
        up,
        same,
        ← append_assoc (low_digits 8 w) (10 ∷ []) rest,
        drop-append (low_digits 8 w ++ 10 ∷ []) rest (9 * (i / 4 + 1)) (9 * (i / 4)) nine,
      )

-- The lines hold the bytes from their first address on, and nothing else.
pub image_byte-hex_lines :
    (words : Dict)
    → IsByteDict words
    → (n addr i : ℕ)
    → image_byte (join_lines (hex_lines words n addr)) i
      ≡ (if ltb i (4 * n) then lookup_or words (addr + i) 0 else 0)
unfolding hex_lines line_text
image_byte-hex_lines words h zero addr i = unfold join_lines in ground (arith, image_byte-nil i)
image_byte-hex_lines words h (suc n) addr i = elim (Bool-cases (ltb i 4)) [
  | inl here ↦
      text
      ∙ image_byte-line w fits rest i (ltb→lt i 4 here)
      ∙ word_at-byte words addr i h (ltb→lt i 4 here)
      ∙ ground arith
  | inr below ↦
      let j = i - 4 in
      let ij : i ≡ j + 4 = ground arith in
      let aij : addr + 4 + j ≡ addr + i = ground arith in
      text
      ∙ ap (image_byte (line_text w fits rest)) ij
      ∙ image_byte-below w fits rest j
      ∙ image_byte-hex_lines words h n (addr + 4) j
      ∙ rw aij (ground arith)
]
  where
    w : ℕ
    w = word_at words addr

    fits : w < 2 ^ 32
    fits = word_at-lt words addr h

    rest : Text
    rest = join_lines (hex_lines words n (addr + 4))

    text :
        image_byte (join_lines (format_08x w ∷ hex_lines words n (addr + 4))) i
        ≡ image_byte (line_text w fits rest) i
    text =
        ap (λ (t : Text). image_byte t i)
          (join_lines-cons (format_08x w) (hex_lines words n (addr + 4))
            ∙ ap (λ (t : Text). t ++ 10 ∷ rest) (format_08x_lem w fits))
