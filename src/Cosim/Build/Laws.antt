-- ===== src/Cosim/Build/Laws.antt =====
-- The source that write_elf writes, line by line.
use sisrv_platform.Prelude.{
  ℕ, zero, suc, ◌+◌, ◌/◌, ◌%◌, ◌^◌, ◌<◌, ◌≡◌, refl, ◌∙◌, ap, inl, inr, Bool, true, false, not, ◌&&◌,
  List, [], ◌∷◌, ◌++◌, append_assoc, map, Text, codes, join_with, format_08x, low_digits,
  high_digits, hex_char, get_or, is_break, IsLine, split_lines, split_lines-append, split_lines-nil,
  ◌==◌, all, All, All-append, Bool-cases, arith,
}
use sisrv_platform.Cosim.Programs.{
  Profile, rv32im, rv32imac, rv32imac_u_pmp, preamble, asm_ops, draw_lines, word_line,
  gen_program_words, gen_program_asm,
}
use sisrv_platform.Cosim.Build.{source_header, program_text}

-- Lines that are joined with newlines and ended by one are read back.
split_lines-join_with :
    (line : Text) (lines : List Text)
    → All IsLine (line ∷ lines)
    → split_lines (join_with (codes "\n") (line ∷ lines) ++ codes "\n") ≡ line ∷ lines
unfolding join_with
split_lines-join_with line [] (h, _) = split_lines-append line [] h ∙ ap (◌∷◌ line) split_lines-nil
split_lines-join_with line (next ∷ lines) (h, more) =
    ap split_lines (append_assoc line (10 ∷ join_with (codes "\n") (next ∷ lines)) (codes "\n"))
    ∙ split_lines-append line (join_with (codes "\n") (next ∷ lines) ++ codes "\n") h
    ∙ ap (◌∷◌ line) (split_lines-join_with next lines more)

-- Whether a text is a line is computed.
abbrev is_line : Text → Bool
is_line s = all (λ c. not (is_break c)) s

IsLine-of_is_line : (s : Text) → is_line s ≡ true → IsLine s
IsLine-of_is_line [] _ = tt
IsLine-of_is_line (c ∷ s) h = ground (arith, IsLine-of_is_line s)

all_lines : (lines : List Text) → all is_line lines ≡ true → All IsLine lines
all_lines [] _ = tt
all_lines (line ∷ lines) h =
    let (fits, more) = both (is_line line) (all is_line lines) h in
    (IsLine-of_is_line line fits, all_lines lines more)
  where
    both : (a b : Bool) → a && b ≡ true → (a ≡ true) × (b ≡ true)
    both a b e = ground arith

get_or-All {ℓ} :
    {A : Type ℓ} (P : A → Type 0) (xs : List A) (i : ℕ) (d : A) → All P xs → P d → P (get_or xs i d)
get_or-All P [] i d h e = e
get_or-All P (x ∷ xs) zero d (p, _) e = p
get_or-All P (x ∷ xs) (suc i) d (_, h) e = get_or-All P xs i d h e

hex_char_no_break : (n : ℕ) → is_break (hex_char (n % 16)) ≡ false
hex_char_no_break n = let digit : n % 16 < 16 = omega arith in ground arith

low_digits-IsLine : (k n : ℕ) → IsLine (low_digits k n)
unfolding low_digits
low_digits-IsLine zero n = tt
low_digits-IsLine (suc k) n =
    All-append (λ c. is_break c ≡ false) (low_digits k (n / 16)) (hex_char (n % 16) ∷ [])
      (low_digits-IsLine k (n / 16)) (hex_char_no_break n, tt)

high_digits-IsLine : (fuel n : ℕ) → IsLine (high_digits fuel n)
unfolding high_digits
high_digits-IsLine zero n = tt
high_digits-IsLine (suc fuel) n =
    let digits : IsLine (high_digits fuel (n / 16) ++ hex_char (n % 16) ∷ []) =
      All-append (λ c. is_break c ≡ false) (high_digits fuel (n / 16)) (hex_char (n % 16) ∷ [])
        (high_digits-IsLine fuel (n / 16)) (hex_char_no_break n, tt) in
    elim (Bool-cases (n == 0)) [ inl ended ↦ rw ended tt | inr left ↦ rw left digits ]

word_line-IsLine : (word : ℕ) → IsLine (word_line word)
unfolding format_08x
word_line-IsLine word =
    All-append (λ c. is_break c ≡ false) (codes ".word 0x") (format_08x word)
      (IsLine-of_is_line (codes ".word 0x") refl)
      (All-append (λ c. is_break c ≡ false) (high_digits (word / 16 ^ 8) (word / 16 ^ 8))
        (low_digits 8 word) (high_digits-IsLine (word / 16 ^ 8) (word / 16 ^ 8))
        (low_digits-IsLine 8 word))

word_lines-IsLine : (words : List ℕ) → All IsLine (map word_line words)
word_lines-IsLine [] = tt
word_lines-IsLine (word ∷ words) = (word_line-IsLine word, word_lines-IsLine words)

draw_lines-IsLine : (draw : ℕ → ℕ) (n i : ℕ) → All IsLine (draw_lines draw n i)
unfolding draw_lines
draw_lines-IsLine draw zero i = tt
draw_lines-IsLine draw (suc n) i = (
  get_or-All IsLine asm_ops (draw i) [] (all_lines asm_ops refl) tt,
  draw_lines-IsLine draw n (i + 1),
)

assembly-IsLine :
    (draw : ℕ → ℕ) (n : ℕ) (profile : Profile)
    → All IsLine (preamble profile)
    → All IsLine
        (preamble profile ++ (draw_lines draw n 0 ++ (codes "j ." ∷ codes ".option pop" ∷ [])))
assembly-IsLine draw n profile h =
    All-append IsLine (preamble profile)
      (draw_lines draw n 0 ++ (codes "j ." ∷ codes ".option pop" ∷ [])) h
      (All-append IsLine (draw_lines draw n 0) (codes "j ." ∷ codes ".option pop" ∷ [])
        (draw_lines-IsLine draw n 0) (all_lines (codes "j ." ∷ codes ".option pop" ∷ []) refl))

gen_program_asm-IsLine :
    (draw : ℕ → ℕ) (n : ℕ) (profile : Profile) → All IsLine (gen_program_asm draw n profile)
unfolding gen_program_asm
gen_program_asm-IsLine draw n rv32im = word_lines-IsLine (gen_program_words draw n)
gen_program_asm-IsLine draw n rv32imac =
    assembly-IsLine draw n rv32imac (all_lines (preamble rv32imac) refl)
gen_program_asm-IsLine draw n rv32imac_u_pmp =
    assembly-IsLine draw n rv32imac_u_pmp (all_lines (preamble rv32imac_u_pmp) refl)

-- Whatever is drawn, and in every profile, the lines of the file that write_elf hands to the compiler
-- are the three lines of its header and the lines of the generated program.
pub program_text-lines :
    (draw : ℕ → ℕ) (n : ℕ) (profile : Profile)
    → split_lines (program_text (gen_program_asm draw n profile))
      ≡ source_header ++ gen_program_asm draw n profile
unfolding program_text
program_text-lines draw n profile =
    split_lines-join_with (codes ".section .text.init")
      (codes ".globl _start" ∷ codes "_start:" ∷ gen_program_asm draw n profile)
      (All-append IsLine source_header (gen_program_asm draw n profile)
        (all_lines source_header refl) (gen_program_asm-IsLine draw n profile))
