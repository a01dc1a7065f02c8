-- ===== src/Testlist/Tests.antt =====
-- Small test lists, and the theorems of the filters at them.
use sisrv_platform.Prelude.{
  insert_by, sort_by, join_with, format_dec, dec_digits, after_last, ◌≡◌, refl, true, false, Option,
  none, some, List, [], ◌∷◌, Text, codes,
}
use sisrv_platform.Testlist.Act.{
  breakdown, summary_line, normalized, should_exclude, strip_slashes_left, strip_slashes_right,
  count_one, count_reason, filter_item, filter_items, filter_list, excluded_total,
}
use sisrv_platform.Testlist.Act.Counts.{filter_list-full}
use sisrv_platform.Testlist.Pick.{
  distinct, first_stems, lesser, least, first_choice, pick_match, has_char, before_last, ends_with,
  names_test, pick_test, found, not_found,
}
use sisrv_platform.Testlist.Pick.Choice.{IsBest, pick_match-IsBest}

program : Unit {0}
unfolding normalized should_exclude strip_slashes_left strip_slashes_right count_one count_reason
    filter_item filter_items filter_list excluded_total lesser least first_choice pick_match
    after_last has_char before_last ends_with names_test pick_test insert_by sort_by distinct
    first_stems breakdown summary_line join_with format_dec dec_digits
program = tt

-- An entry is its test path, where it has one.
abbrev test_path : Option Text → Option Text
test_path entry = entry

abbrev entries : List (Text × Option Text)
entries =
    (codes "add-01", some (codes "rv32i_m\\I\\src\\add-01.S"))
    ∷ (codes "rv32i_m/pmp/src/pmp-01.S", none)
    ∷ (codes "sv", some (codes "rv32i_m/vm_sv32/src/a.S"))
    ∷ []

filter_short : filter_list test_path false entries ≡ record {
  kept = (codes "add-01", some (codes "rv32i_m\\I\\src\\add-01.S")) ∷ [];
  excluded = (codes "pmp", 1) ∷ (codes "vm_sv", 1) ∷ [];
}
unfolding program
filter_short = refl

filter_list-full_example :
    (filter_list test_path false (filter_list test_path true entries).kept).kept
    ≡ (filter_list test_path false entries).kept
filter_list-full_example = filter_list-full test_path entries

abbrev first_key : Text
first_key = codes "rv32i_m/hints/src/add-01.S"

abbrev other_keys : List Text
other_keys = codes "rv32i_m/C/src/add-01.S" ∷ codes "rv32i_m/I/src/add-01.S" ∷ []

abbrev prefer : Text
prefer = codes "rv32i_m/I/src"

pick_preferred :
    pick_test (codes "add-01") prefer (first_key ∷ other_keys)
    ≡ found (codes "rv32i_m/I/src/add-01.S")
unfolding program
pick_preferred = refl

pick_non_hint :
    pick_test (codes "add-01.S") (codes "rv64") (first_key ∷ other_keys)
    ≡ found (codes "rv32i_m/C/src/add-01.S")
unfolding program
pick_non_hint = refl

pick_missing :
    pick_test (codes "sub-01") prefer (first_key ∷ other_keys) ≡ not_found (codes "add-01" ∷ [])
unfolding program
pick_missing = refl

pick_match-IsBest_example :
    (best : Text) × (pick_match (first_key ∷ other_keys) prefer ≡ some best)
    × IsBest prefer (first_key ∷ other_keys) best
pick_match-IsBest_example = pick_match-IsBest first_key other_keys prefer

printed_summary :
    summary_line entries (filter_list test_path false entries)
    ≡ codes "ACT filter: kept 1 tests, excluded 2 (pmp=1, vm_sv=1)\n"
unfolding program
printed_summary = refl
