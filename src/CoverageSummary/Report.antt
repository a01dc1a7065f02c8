-- ===== src/CoverageSummary/Report.antt =====
-- main of scripts/ci/summarize_verilator_cov.py, from the files that are found to the report. A float
-- is the fraction that it stands for: two fractions of counts below 2 ^ 25 are ordered as their floats
-- are, and 99.9 is 999 / 1000. How a fraction is printed is a parameter.
pub mod Laws
use sisrv_platform.Prelude.{
  sort_by, ℕ, zero, suc, ◌+◌, ◌-◌, ◌*◌, Bool, true, false, not, ◌&&◌, ◌||◌, List, [], ◌∷◌, ◌++◌,
  Text, codes, contains, text_le, length, take, ltb, leb, ◌==◌, if◌then◌else◌, keep, format_dec,
}
use sisrv_platform.CoverageSummary.{Annotation, parse_annotate}

-- An annotated file: its name and its text.
pub record AnnotatedFile : Type 0 where
  pub name : Text
  pub text : Text

abbrev pub or_else {ℓ} : {A : Type ℓ} → List A → List A → List A
or_else [] others = others
or_else (x ∷ xs) others = x ∷ xs

-- The files of the design, and where there are none, all others that are no part of UVM. Both lists
-- are in the order of their paths.
unfoldable pub choose_files : (design others : List AnnotatedFile) → List AnnotatedFile
choose_files design others =
    or_else design (keep (λ p. not (contains p.name (codes "uvm_"))) others)

-- A row; its percentage is hit / (hit + miss).
pub record FileRow : Type 0 where
  pub hit : ℕ
  pub miss : ℕ
  pub name : Text
  pub samples : List (ℕ × Text)

pub record Summed : Type 0 where
  pub th : ℕ
  pub tm : ℕ
  pub rows : List FileRow

-- A round of the loop over the files.
unfoldable pub add_file : AnnotatedFile → Summed → Summed
add_file f st =
    let found = parse_annotate f.text in
    let counted : Summed = record {
      th = st.th + found.hit;
      tm = st.tm + found.miss;
      rows =
          st.rows
          ++ record {
            hit = found.hit;
            miss = found.miss;
            name = f.name;
            samples = take 15 found.uncovered;
          }
            ∷ [];
    } in
    if found.hit + found.miss == 0 then st else counted

unfoldable pub add_files : List AnnotatedFile → Summed → Summed
add_files [] st = st
add_files (f ∷ files) st = add_files files (add_file f st)

-- (r[0], r[3]) <= (s[0], s[3]), by the crosswise products
abbrev pub row_le : FileRow → FileRow → Bool
row_le r s =
    let left = r.hit * (s.hit + s.miss) in
    let right = s.hit * (r.hit + r.miss) in
    ltb left right || (left == right && text_le r.name s.name)

-- The loop and rows.sort.
unfoldable pub summarize : List AnnotatedFile → Summed
summarize files =
    let st = add_files files (record { th = 0; tm = 0; rows = [] }) in
    record st { rows = sort_by row_le st.rows }

-- A number in a field of five, to the right and to the left.
unfoldable pub spaces : ℕ → Text
spaces zero = []
spaces (suc n) = b' ' ∷ spaces n

abbrev pub right_5 : ℕ → Text
right_5 n = spaces (5 - length (format_dec n)) ++ format_dec n

abbrev pub left_5 : ℕ → Text
left_5 n = format_dec n ++ spaces (5 - length (format_dec n))

-- pct >= 99.9
abbrev pub nearly_full : FileRow → Bool
nearly_full row = leb (999 * (row.hit + row.miss)) (1000 * row.hit)

abbrev pub no_samples : List (ℕ × Text) → Bool
no_samples [] = true
no_samples (u ∷ us) = false

-- The printers of 100.0 * hit / all: with two digits, in a field of six with two, and with one.
pub record Percent : Type 0 where
  pub two : (hit all : ℕ) → Text
  pub two_of_six : (hit all : ℕ) → Text
  pub one : (hit all : ℕ) → Text

module _ (percent : Percent) where
  unfoldable pub total_line : (th tm : ℕ) → Text
  total_line th tm =
      if th + tm == 0
      then codes "TOTAL hit=0 miss=0\n"
      else codes "TOTAL hit="
        ++ (format_dec th
            ++ (codes " miss="
                ++ (format_dec tm ++ (codes " pct=" ++ (percent.two th (th + tm) ++ codes "\n")))))

  unfoldable pub row_line : FileRow → Text
  row_line row =
      codes "  "
      ++ (percent.two_of_six row.hit (row.hit + row.miss)
          ++ (codes "%  "
              ++ (right_5 row.hit
                  ++ (codes "/"
                      ++ (left_5 (row.hit + row.miss)
                          ++ (codes "  " ++ (row.name ++ codes "\n")))))))

  unfoldable pub row_lines : List FileRow → Text
  row_lines [] = []
  row_lines (row ∷ rows) = row_line row ++ row_lines rows

  unfoldable pub sample_lines : List (ℕ × Text) → Text
  sample_lines [] = []
  sample_lines ((ln, src) ∷ samples) =
      (codes "  L" ++ (format_dec ln ++ (codes ": " ++ (src ++ codes "\n"))))
      ++ sample_lines samples

  -- The samples of a row, where it has any and is not nearly full.
  unfoldable pub row_samples : FileRow → Text
  row_samples row =
      if nearly_full row || no_samples row.samples
      then []
      else (codes "\n-- "
          ++ (row.name
              ++ (codes " (" ++ (percent.one row.hit (row.hit + row.miss) ++ codes "%) --\n"))))
        ++ sample_lines row.samples

  unfoldable pub all_samples : List FileRow → Text
  all_samples [] = []
  all_samples (row ∷ rows) = row_samples row ++ all_samples rows

  -- What main appends to the report.
  unfoldable pub report_text : Summed → Text
  report_text st =
      codes "\n=== DUT annotate summary ===\n"
      ++ (total_line st.th st.tm
          ++ (codes "\nPer-file (lowest first):\n"
              ++ (row_lines st.rows ++ (codes "\nUncovered samples:\n" ++ all_samples st.rows))))

  unfoldable pub report_of : (report : Text) → (design others : List AnnotatedFile) → Text
  report_of report design others = report ++ report_text (summarize (choose_files design others))
