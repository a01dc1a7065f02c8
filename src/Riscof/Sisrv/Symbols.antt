-- ===== src/Riscof/Sisrv/Symbols.antt =====
-- The addresses that _symbol_addr of riscof_sisrv.py reads from what nm prints.
use sisrv_platform.Prelude.{
  ℤ, pos, is_zero, parse_int_16-field, Field, field_text, field_value, All-weaken, hex-not_space, ℕ,
  zero, suc, ◌≡◌, refl, ◌∙◌, ap, inl, inr, true, false, Option, none, some, List, [], ◌∷◌, ◌++◌,
  append_assoc, append-nil, map, Text, ok, words, words_from, is_hex, is_space, is_break, eq_text,
  IsLine, split_lines, split_lines-append, split_lines-nil, if◌then◌else◌, All, All-append,
  Bool-cases, arith,
}
use sisrv_platform.Riscof.Sisrv.Run.{find_symbol, symbol_addr}

abbrev NoSpace : Text → Type 0
NoSpace = All (λ c. is_space c ≡ false)

-- A word that white space ends.
words_from-word :
    (d : ℕ) (cur word : Text) (space : ℕ) (s : Text)
    → NoSpace word
    → is_space space ≡ true
    → words_from (d ∷ cur) (word ++ space ∷ s) ≡ (d ∷ (cur ++ word)) ∷ words_from [] s
unfolding words_from
words_from-word d cur [] space s _ b = rw (words_from, b, append-nil) refl
words_from-word d cur (c ∷ word) space s (p, more) b =
    rw (words_from, p)
      (words_from-word d (cur ++ c ∷ []) word space s more b
        ∙ ap (λ (t : Text). (d ∷ t) ∷ words_from [] s) (append_assoc cur (c ∷ []) word))

-- The last word.
words_from-last :
    (d : ℕ) (cur word : Text) → NoSpace word → words_from (d ∷ cur) word ≡ (d ∷ (cur ++ word)) ∷ []
unfolding words_from
words_from-last d cur [] _ = rw append-nil
words_from-last d cur (c ∷ word) (p, more) =
    rw (words_from, p)
      (words_from-last d (cur ++ c ∷ []) word more
        ∙ ap (λ (t : Text). (d ∷ t) ∷ []) (append_assoc cur (c ∷ []) word))

-- A word: one or more characters that are no white space.
pub record Word : Type 0 where
  pub first : ℕ
  pub more : Text
  pub no_space : NoSpace (first ∷ more)

abbrev pub word_text : Word → Text
word_text w = w.first ∷ w.more

words-word :
    (w : Word) (space : ℕ) (s : Text)
    → is_space space ≡ true
    → words (word_text w ++ space ∷ s) ≡ word_text w ∷ words s
unfolding words_from
words-word w space s b =
    rw (words_from, w.no_space.0) (words_from-word w.first [] w.more space s w.no_space.1 b)

words-last : (w : Word) → words (word_text w) ≡ word_text w ∷ []
unfolding words_from
words-last w = rw (words_from, w.no_space.0) (words_from-last w.first [] w.more w.no_space.1)

abbrev pub blanks : ℕ → Text
blanks zero = []
blanks (suc n) = b' ' ∷ blanks n

words-blank : (n : ℕ) (s : Text) → words (blanks n ++ s) ≡ words s
unfolding words_from
words-blank zero s = refl
words-blank (suc n) s = words-blank n s

-- A line of nm: a defined symbol with its address and its type, or an undefined one.
pub data NmLine : Type 0 where
  defined : (address : Field) (type name : Word) → NmLine
  undefined : (indent : ℕ) (type name : Word) → NmLine

unfoldable pub nm_line : NmLine → Text
nm_line (defined address type name) =
    field_text address ++ b' ' ∷ (word_text type ++ b' ' ∷ word_text name)
nm_line (undefined indent type name) = blanks indent ++ (word_text type ++ b' ' ∷ word_text name)

unfoldable pub nm_text : List NmLine → Text
nm_text [] = []
nm_text (line ∷ lines) = nm_line line ++ 10 ∷ nm_text lines

-- The address of the first defined symbol of a name.
abbrev pub first_address : Text → List NmLine → Option ℤ
first_address name [] = none
first_address name (undefined indent type other ∷ lines) = first_address name lines
first_address name (defined address type other ∷ lines) =
    let later = first_address name lines in
    if eq_text (word_text other) name then some (pos (field_value address)) else later

-- The words of a line.
abbrev line_words : NmLine → List Text
line_words (defined address type name) = field_text address ∷ word_text type ∷ word_text name ∷ []
line_words (undefined indent type name) = word_text type ∷ word_text name ∷ []

-- A field is a word.
abbrev field_word : Field → Word
field_word f = record {
  first = f.first;
  more = f.more;
  no_space = All-weaken is_hex is_space hex-not_space (f.first ∷ f.more) f.digits;
}

space_of_break : (c : ℕ) → is_space c ≡ false → is_break c ≡ false
space_of_break c h = ground arith

IsLine-word : (w : Word) → IsLine (word_text w)
IsLine-word w = go (word_text w) w.no_space
  where
    go : (s : Text) → NoSpace s → IsLine s
    go [] _ = tt
    go (c ∷ s) (h, hs) = (space_of_break c h, go s hs)

IsLine-two : (a b : Word) → IsLine (word_text a ++ b' ' ∷ word_text b)
IsLine-two a b =
    All-append (λ c. is_break c ≡ false) (word_text a) (b' ' ∷ word_text b) (IsLine-word a)
      (refl, IsLine-word b)

IsLine-blanks : (n : ℕ) → IsLine (blanks n)
IsLine-blanks zero = tt
IsLine-blanks (suc n) = (refl, IsLine-blanks n)

IsLine-nm_line : (line : NmLine) → IsLine (nm_line line)
unfolding nm_line
IsLine-nm_line (defined address type name) =
    All-append (λ c. is_break c ≡ false) (field_text address)
      (b' ' ∷ (word_text type ++ b' ' ∷ word_text name)) (IsLine-word (field_word address))
      (refl, IsLine-two type name)
IsLine-nm_line (undefined indent type name) =
    All-append (λ c. is_break c ≡ false) (blanks indent) (word_text type ++ b' ' ∷ word_text name)
      (IsLine-blanks indent) (IsLine-two type name)

split_lines-nm_text : (lines : List NmLine) → split_lines (nm_text lines) ≡ map nm_line lines
unfolding nm_text
split_lines-nm_text [] = split_lines-nil
split_lines-nm_text (line ∷ lines) =
    split_lines-append (nm_line line) (nm_text lines) (IsLine-nm_line line)
    ∙ ap (◌∷◌ (nm_line line)) (split_lines-nm_text lines)

words-two :
    (a b : Word) → words (word_text a ++ b' ' ∷ word_text b) ≡ word_text a ∷ word_text b ∷ []
words-two a b = words-word a b' ' (word_text b) refl ∙ ap (◌∷◌ (word_text a)) (words-last b)

words-nm_line : (line : NmLine) → words (nm_line line) ≡ line_words line
unfolding nm_line
words-nm_line (defined address type name) =
    words-word (field_word address) b' ' (word_text type ++ b' ' ∷ word_text name) refl
    ∙ ap (◌∷◌ (field_text address)) (words-two type name)
words-nm_line (undefined indent type name) =
    words-blank indent (word_text type ++ b' ' ∷ word_text name) ∙ words-two type name

find_symbol-nm_text :
    (name : Text) (lines : List NmLine)
    → find_symbol name (map nm_line lines) ≡ ok (first_address name lines)
unfolding find_symbol
find_symbol-nm_text name [] = refl
find_symbol-nm_text name (undefined indent type other ∷ lines) =
    rw (find_symbol, words-nm_line (undefined indent type other)) (find_symbol-nm_text name lines)
find_symbol-nm_text name (defined address type other ∷ lines) =
    elim (Bool-cases (eq_text (word_text other) name)) [
      | inl same ↦
          rw
            (
              find_symbol,
              words-nm_line (defined address type other),
              same,
              parse_int_16-field address,
            )
            refl
      | inr differs ↦
          rw (find_symbol, words-nm_line (defined address type other), differs)
            (find_symbol-nm_text name lines)
    ]

-- Where nm exits with 0 and prints lines of defined and undefined symbols, the address of a symbol is
-- that of the first line that defines it, and none where no line does; where nm exits with another
-- code, it is none.
pub symbol_addr-nm_text :
    (returncode : ℤ) (name : Text) (lines : List NmLine)
    → symbol_addr (record { returncode = returncode; stdout = nm_text lines }) name
      ≡ ok (if is_zero returncode then first_address name lines else none)
unfolding symbol_addr
symbol_addr-nm_text returncode name lines = elim (Bool-cases (is_zero returncode)) [
  | inl good ↦ rw (good, split_lines-nm_text lines) (find_symbol-nm_text name lines)
  | inr bad ↦ rw bad refl
]
