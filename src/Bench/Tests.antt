-- ===== src/Bench/Tests.antt =====
-- Small logs, and the theorems of the benchmark runner at them.
use sisrv_platform.Prelude.{
  pos, negsuc, parse_int_10, is_number, map, List, words_from, split_lines, lines_from, Result,
  parse_dec, dec_digits, format_dec, ◌-◌, ◌*◌, ◌≤◌, ◌<◌, ◌≡◌, refl, max, true, false, [], ◌∷◌, ◌++◌,
  Text, codes, ok, err, arith, span, run1, literal, strip, strip_left, strip_right, format_08x,
  high_digits, low_digits, length,
}
use sisrv_platform.Bench.{
  int_at, search_starts, parse_int_line, value_at, parse_sisrv_value, int_of, coremark_iterations,
  dhrystone_iterations, coremark_checks, coremark_row, run_coremark, read_floats, dhrystone_row,
  run_dhrystone, BenchError, system_exit, Row, DhrystoneRow, SimulateCoremark, Seeds,
  performance_seeds, validation_seeds, log_path, divide, zero_division, below_minimum,
  missing_marker,
}
use sisrv_platform.Bench.Builds.{
  hex_words, join, objcopy_to_hex, common_flags, compile_obj, dhrystone_parts, objcopy_command,
  build_dhrystone,
}
use sisrv_platform.Bench.Driver.{
  of_coremark, of_dhrystone, Summary, bench_summary, run_sim, toolchain_version, all_benchmarks,
  run, git_commit, only_dhrystone, isa_results, all_results,
}
use sisrv_platform.Bench.Printed.{parse_int_line-printed}
use sisrv_platform.Bench.Calibration.{coremark_iterations-least}
use sisrv_platform.Bench.Checks.{IsRun, run_coremark-IsRun}

program : Unit {0}
unfolding span run1 literal strip strip_left strip_right parse_dec int_at search_starts
    parse_int_line value_at parse_sisrv_value int_of coremark_iterations dhrystone_iterations
    coremark_checks coremark_row run_coremark read_floats dhrystone_row run_dhrystone divide
    parse_int_10 is_number
program = tt

build_program : Unit {0}
unfolding dec_digits format_dec format_08x high_digits low_digits hex_words join objcopy_to_hex
    common_flags compile_obj dhrystone_parts objcopy_command build_dhrystone
build_program = tt

abbrev log_of : Text → Text
log_of cycles =
    codes "CoreMark Size    : 666\nTotal ticks      : "
    ++ (cycles ++ codes "\nIterations       : 2\nCorrect operation validated.\n")

abbrev simulate : SimulateCoremark
simulate isa variant iterations seeds ticks_per_sec = ok (log_of (codes "6000"))

abbrev isa_name : Text
isa_name = codes "rv32im"

abbrev smoke_row : (variant : Text) → Seeds → Row
smoke_row variant seeds = record {
  isa = isa_name;
  variant = variant;
  seeds = seeds;
  iterations = 2;
  cycles = 6000;
  coremark_per_mhz = record { numerator = 2_000_000; denominator = 6000 };
  cycles_per_iteration = record { numerator = 6000; denominator = 2 };
  validated = true;
  log = log_path isa_name variant;
}

abbrev two_rows : List Row
two_rows =
    smoke_row (codes "performance") performance_seeds
    ∷ smoke_row (codes "validation") validation_seeds
    ∷ []

smoke_rows : run_coremark simulate true 10_200 isa_name ≡ ok two_rows
unfolding program
smoke_rows = refl

too_short :
    coremark_row false isa_name (codes "performance") performance_seeds (log_of (codes "6000"))
    ≡ err (below_minimum (pos 6000) 10_000_000)
unfolding program
too_short = refl

zero_cycles :
    coremark_row false isa_name (codes "performance") performance_seeds (log_of (codes "0"))
    ≡ err zero_division
unfolding program
zero_cycles = refl

signed_cycles : (int_of (codes "-1_000") ≡ ok (negsuc 999)) × (int_of (codes "+7") ≡ ok (pos 7))
unfolding program
signed_cycles = (refl, refl)

no_marker :
    dhrystone_row (λ s. true) false isa_name (codes "x\nSISRV_BENCH benchmark=coremark \n")
    ≡ err missing_marker
unfolding program
no_marker = refl

run_coremark-IsRun_example :
    (performance : Row) × (validation : Row) × (two_rows ≡ performance ∷ validation ∷ [])
    × IsRun simulate true 10_200 isa_name performance validation
run_coremark-IsRun_example = run_coremark-IsRun simulate true 10_200 isa_name smoke_rows

coremark_iterations-least_example :
    (10_200_000 ≤ coremark_iterations false 10_200_000 300_000 * max 1 300_000)
    × ((coremark_iterations false 10_200_000 300_000 - 1) * max 1 300_000 < 10_200_000)
    × (0 < coremark_iterations false 10_200_000 300_000)
coremark_iterations-least_example = coremark_iterations-least 10_200_000 300_000 (omega arith)

parse_int_line-printed_example :
    parse_int_line
      (codes "Total ticks"
        ++ (codes "      " ++ b':' ∷ (codes " " ++ (format_dec 120_345 ++ 10 ∷ codes "rest"))))
      (codes "Total ticks")
    ≡ ok 120_345
parse_int_line-printed_example =
    parse_int_line-printed b'T' (codes "otal ticks") (codes "      ") (codes " ") (codes "rest")
      120_345 (refl, (refl, (refl, (refl, (refl, (refl, tt)))))) (refl, tt)

words_of_five_bytes : objcopy_to_hex (1 ∷ 2 ∷ 3 ∷ 4 ∷ 0xFF ∷ []) ≡ codes "04030201\n000000ff\n"
unfolding build_program
words_of_five_bytes = refl

pilot_flag : format_dec 20 ≡ codes "20"
unfolding build_program
pilot_flag = refl

build_steps :
    length (build_dhrystone (codes "r") (codes "gcc") (codes "objcopy") (codes "rv32im") 20) ≡ 7
unfolding build_program
build_steps = refl

no_git : git_commit (record { returncode = pos 128; output = codes "fatal" }) ≡ codes "unknown"
unfolding git_commit run strip strip_left strip_right span
no_git = refl

abbrev sample_row : DhrystoneRow
sample_row = record {
  isa = isa_name;
  iterations = pos 2;
  cycles = pos 6000;
  instret = pos 5000;
  floats = [];
  log = [];
}

two_isas :
    all_results
      (λ isa. ok two_rows)
      (λ isa. ok sample_row)
      only_dhrystone
      (codes "rv32imc" ∷ codes "rv32im" ∷ [])
      []
    ≡ ok (of_dhrystone sample_row ∷ of_dhrystone sample_row ∷ [])
unfolding all_results isa_results
two_isas = refl

abbrev summary_of_smoke : Result BenchError Summary
summary_of_smoke =
    bench_summary (λ isa. ok two_rows) (λ isa. ok sample_row) all_benchmarks (codes "build/sim")
      (codes " rv32imc  rv32im") true (record { returncode = pos 0; output = codes "abc\n" })
      (record { returncode = pos 0; output = codes "gcc 13\nline\n" })

smoke_summary :
    summary_of_smoke
    ≡ ok (record {
      commit = codes "abc";
      toolchain = codes "gcc 13";
      simulator = codes "build/sim";
      mode = codes "smoke";
      results =
          map of_coremark two_rows
          ++ of_dhrystone sample_row ∷ (map of_coremark two_rows ++ of_dhrystone sample_row ∷ []);
    })
unfolding program git_commit run toolchain_version split_lines lines_from words_from bench_summary
    all_results isa_results
smoke_summary = refl

failing_simulator :
    run_sim
      (λ ram cmd. record { returncode = pos 3; output = [] })
      (codes "sim")
      (codes "a.hex")
      (codes "ram.hex")
      60
    ≡ err (system_exit (pos 3))
unfolding run_sim run
failing_simulator = refl
