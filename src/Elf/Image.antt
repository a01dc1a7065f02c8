-- ===== src/Elf/Image.antt =====
-- `write_hex` of verification/riscof/scripts/elf2sisrv.py: a dictionary of bytes is written as
-- lines of one 32-bit word each, for `$readmemh`.
pub mod Word
pub mod Layout
pub mod ReadBack
use sisrv_platform.Prelude.{
  ℕ, zero, suc, ◌+◌, ◌-◌, ◌*◌, ◌/◌, bit_and, bit_or, [], ◌∷◌, ◌++◌, List, ◌<<<◌, Text, Dict,
  lookup_or, max_key, format_08x,
}

-- x & ~0x3: for a non-negative x the bits of x that the mask holds are taken off.
unfoldable pub align_down : ℕ → ℕ
align_down x = x - bit_and x 0x3

-- `for shift in range(4)`, with the rounds left: the bytes from addr on are put into the word.
or_bytes : Dict → ℕ → ℕ → ℕ → ℕ → ℕ
or_bytes words addr zero shift word = word
or_bytes words addr (suc left) shift word =
    or_bytes words addr left (shift + 1)
      (bit_or word (lookup_or words (addr + shift) 0 <<< (8 * shift)))

unfoldable pub word_at : Dict → ℕ → ℕ
unfolding or_bytes
word_at words addr = or_bytes words addr 4 0 0

-- `for addr in range(start_word, end_word, 4)`, with the rounds left.
unfoldable pub hex_lines : Dict → ℕ → ℕ → List Text
hex_lines words zero addr = []
hex_lines words (suc left) addr = format_08x (word_at words addr) ∷ hex_lines words left (addr + 4)

-- "\n".join(lines) + ("\n" if lines else "")
unfoldable pub join_lines : List Text → Text
join_lines [] = []
join_lines (line ∷ []) = line ++ 10 ∷ []
join_lines (line ∷ next ∷ lines) = line ++ 10 ∷ join_lines (next ∷ lines)

-- `range(start, end, 4)` has this many rounds.
abbrev pub rounds_of_4 : ℕ → ℕ → ℕ
rounds_of_4 start end = (end - start + 3) / 4

-- The text that is written to the file.
unfoldable pub write_hex : Dict → ℕ → Text
write_hex [] region_base = []
write_hex (e ∷ words) region_base =
    let start_word = align_down region_base in
    let end_word = align_down (max_key (e ∷ words) + 4) in
    join_lines (hex_lines (e ∷ words) (rounds_of_4 start_word end_word) start_word)
