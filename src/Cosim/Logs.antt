-- ===== src/Cosim/Logs.antt =====
-- The trace parsers of verification/cosim/spike_lockstep.py: `parse_rtl_commits`,
-- `parse_spike_commits` and `spike_program_commits`.
pub mod RoundTrip
use sisrv_platform.Prelude.{
  ℕ, Bool, true, false, Option, none, some, List, [], ◌∷◌, Text, codes, leb, is_digit, is_hex,
  is_space, parse_hex, span, run1, literal, split_lines, strip, if◌then◌else◌,
}

-- One retired instruction: its program counter and its encoding.
abbrev pub Commit : Type 0
Commit = ℕ × ℕ

-- A match that fails is `None`.
infixl 5 ◌>>=◌
abbrev pub ◌>>=◌ {ℓ κ} : {A : Type ℓ} {B : Type κ} → Option A → (A → Option B) → Option B
none >>= f = none
some a >>= f = f a

-- `$` after the last field.
unfoldable pub at_end : Text → Option Text
at_end [] = some []
at_end (c ∷ s) = none

-- RTL_LINE.match: five hexadecimal fields, of which the first two are the commit.
unfoldable pub match_rtl : Text → Option Commit
match_rtl line = do
  (pc, s1) ← run1 is_hex line
  (_, s2) ← run1 is_space s1
  (insn, s3) ← run1 is_hex s2
  (_, s4) ← run1 is_space s3
  (_, s5) ← run1 is_hex s4
  (_, s6) ← run1 is_space s5
  (_, s7) ← run1 is_hex s6
  (_, s8) ← run1 is_space s7
  (_, s9) ← run1 is_hex s8
  _ ← at_end s9
  some (parse_hex 0 pc, parse_hex 0 insn)

-- SPIKE_LINE at one place of a line.
unfoldable pub match_spike : Text → Option Commit
match_spike line = do
  s1 ← literal (codes "core") line
  (_, s2) ← run1 is_space s1
  (_, s3) ← run1 is_digit s2
  s4 ← literal (codes ":") s3
  (_, s5) ← run1 is_space s4
  s6 ← literal (codes "0x") s5
  (pc, s7) ← run1 is_hex s6
  (_, s8) ← run1 is_space s7
  s9 ← literal (codes "(0x") s8
  (insn, s10) ← run1 is_hex s9
  _ ← literal (codes ")") s10
  some (parse_hex 0 pc, parse_hex 0 insn)

-- SPIKE_LINE.search: the first place where it matches.
unfoldable pub search_spike : Text → Option Commit
search_spike [] = match_spike []
search_spike (c ∷ s) =
    let later = search_spike s in
    elim (match_spike (c ∷ s)) [ none ↦ later | some commit ↦ some commit ]

-- The loop over the lines: what matches is appended.
unfoldable pub collect : (Text → Option Commit) → List Text → List Commit
collect matching [] = []
collect matching (line ∷ lines) =
    let rest = collect matching lines in
    elim (matching line) [ none ↦ rest | some commit ↦ commit ∷ rest ]

unfoldable pub parse_spike_commits : Text → List Commit
parse_spike_commits text = collect search_spike (split_lines text)

-- The file's text, or `none` where the path names no file.
unfoldable pub parse_rtl_commits : Option Text → List Commit
parse_rtl_commits none = []
parse_rtl_commits (some text) = collect (λ line. match_rtl (strip line)) (split_lines text)

-- Spike's boot code runs below the program.
unfoldable pub at_or_above : ℕ → List Commit → List Commit
at_or_above base [] = []
at_or_above base ((pc, insn) ∷ commits) =
    let rest = at_or_above base commits in if leb base pc then (pc, insn) ∷ rest else rest

unfoldable pub spike_program_commits : Text → List Commit
spike_program_commits text = at_or_above 0x2000 (parse_spike_commits text)
