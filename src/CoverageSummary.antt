-- ===== src/CoverageSummary.antt =====
-- parse_annotate of scripts/ci/summarize_verilator_cov.py; its main is in the child Report. The text of
-- an annotated source enters as it is read.
pub mod Counts
pub mod Report
mod Tests
use sisrv_platform.Prelude.{
  parse_dec, ℕ, zero, suc, ◌+◌, ◌-◌, ◌*◌, Bool, true, false, Option, none, some, List, [], ◌∷◌,
  ◌++◌, Text, codes, starts_with, length, take, drop, ltb, leb, ◌==◌, if◌then◌else◌, is_digit,
  is_space, span, run1, split_lines, strip_right,
}

-- The \s behind the digits.
abbrev pub ended_count : (digits after : Text) → Option ℕ
ended_count digits [] = none
ended_count digits (c ∷ s) = if is_space c then some (parse_dec 0 digits) else none

-- ^ {0,5}(\d+)\s and the number that it finds
unfoldable pub match_count : Text → Option ℕ
match_count line =
    let (blanks, rest) = span (λ c. c == 32) line in
    if ltb 5 (length blanks)
    then none
    else elim (run1 is_digit rest) [ none ↦ none | some (digits, after) ↦ ended_count digits after ]

-- line[from:140].rstrip()
abbrev pub excerpt : ℕ → Text → Text
excerpt from line = strip_right (drop from (take 140 line))

pub record Annotation : Type 0 where
  pub hit : ℕ
  pub miss : ℕ
  pub uncovered : List (ℕ × Text)

-- One round of the loop, at the line of a number.
unfoldable pub annotate_line : ℕ → Text → Annotation → Annotation
annotate_line i line st =
    if starts_with line (codes "%00")
    then record st { miss = st.miss + 1; uncovered = st.uncovered ++ (i, excerpt 7 line) ∷ [] }
    else elim (match_count line) [
      | none ↦ st
      | some cnt ↦ if ltb 0 cnt then record st { hit = st.hit + 1 } else record st {
        miss = st.miss + 1;
        uncovered = st.uncovered ++ (i, excerpt 6 line) ∷ [];
      }
    ]

unfoldable pub annotate_lines : ℕ → List Text → Annotation → Annotation
annotate_lines i [] st = st
annotate_lines i (line ∷ lines) st = annotate_lines (i + 1) lines (annotate_line i line st)

unfoldable pub parse_annotate : Text → Annotation
parse_annotate text =
    annotate_lines 1 (split_lines text) (record { hit = 0; miss = 0; uncovered = [] })
