-- ===== src/CoverageSummary/Tests.antt =====
-- A small annotated source, and the theorem of the summary at it.
use sisrv_platform.Prelude.{
  insert_by, sort_by, format_dec, dec_digits, List, ◌*◌, ◌/◌, parse_dec, ◌≡◌, refl, [], ◌∷◌, Text,
  codes, length, span, run1, lines_from, split_lines, strip_right,
}
use sisrv_platform.CoverageSummary.{match_count, annotate_line, annotate_lines, parse_annotate}
use sisrv_platform.CoverageSummary.Counts.{Tally, parse_annotate-Tally}
use sisrv_platform.CoverageSummary.Report.{
  AnnotatedFile, Percent, choose_files, add_file, add_files, summarize, spaces, total_line,
  row_line, row_lines, sample_lines, row_samples, all_samples, report_text, report_of,
}
use sisrv_platform.CoverageSummary.Report.Laws.{IsSummary, summarize-IsSummary}

program : Unit {0}
unfolding span run1 lines_from split_lines strip_right parse_dec match_count annotate_line
    annotate_lines parse_annotate choose_files add_file add_files insert_by sort_by summarize spaces
    total_line row_line row_lines sample_lines row_samples all_samples report_text report_of
    dec_digits format_dec
program = tt

abbrev source : Text
source = codes " 000012 a <= b;\n%000000 c <= d; \n  0 e\nendmodule\n"

parse_source :
    parse_annotate source
    ≡ record { hit = 1; miss = 2; uncovered = (2, codes " c <= d;") ∷ (3, []) ∷ [] }
unfolding program
parse_source = refl

parse_annotate-Tally_example :
    Tally 1 (split_lines source) (parse_annotate source).hit (parse_annotate source).uncovered
    × ((parse_annotate source).miss ≡ length (parse_annotate source).uncovered)
parse_annotate-Tally_example = parse_annotate-Tally source

abbrev files : List AnnotatedFile
files =
    record { name = codes "sis_alu.sv"; text = codes " 000002 a\n 000001 b\n" }
    ∷ record { name = codes "sis_core.sv"; text = source }
    ∷ record { name = codes "sis_doc.svh"; text = codes "nothing\n" }
    ∷ []

-- A printer without decimals.
abbrev whole : Percent
whole = record {
  two = λ hit all. format_dec (100 * hit / all);
  two_of_six = λ hit all. format_dec (100 * hit / all);
  one = λ hit all. format_dec (100 * hit / all);
}

report_of-files :
    report_of whole (codes "old\n") files []
    ≡ codes
        "old\n\n=== DUT annotate summary ===\nTOTAL hit=3 miss=2 pct=60\n\nPer-file (lowest first):\n  33%      1/3      sis_core.sv\n  100%      2/2      sis_alu.sv\n\nUncovered samples:\n\n-- sis_core.sv (33%) --\n  L2:  c <= d;\n  L3: \n"
unfolding program
report_of-files = refl

report_of-nothing :
    report_of whole [] [] (record { name = codes "uvm_pkg.sv"; text = source } ∷ [])
    ≡ codes
        "\n=== DUT annotate summary ===\nTOTAL hit=0 miss=0\n\nPer-file (lowest first):\n\nUncovered samples:\n"
unfolding program
report_of-nothing = refl

summarize-IsSummary_example : IsSummary files (summarize files)
summarize-IsSummary_example = summarize-IsSummary files
