-- ===== src/Bench/Driver.antt =====
-- Processes and the loop of main in scripts/run_benchmarks.py: a process is its exit code and its
-- output, and what the two benchmarks of an ISA report enters as functions.
use sisrv_platform.Prelude.{
  ℤ, pos, is_zero, map, words, format_dec, ℕ, Bool, true, false, List, [], ◌∷◌, ◌++◌, Text, codes,
  Result, ok, err, ◌>>=◌, ◌>>◌, ensure, if◌then◌else◌, split_lines, strip,
}
use sisrv_platform.Bench.{BenchError, system_exit, value_error, Row, DhrystoneRow}

pub record Process : Type 0 where
  pub returncode : ℤ
  pub output : Text

-- run: the output, or SystemExit with the code.
unfoldable pub run : Process → Result BenchError Text
run proc = do ensure (is_zero proc.returncode) (system_exit proc.returncode); ok proc.output

-- What the RAM is loaded with for a run.
abbrev pub empty_ram : Text
empty_ram = codes "00000000\n"

unfoldable pub sim_command : (sim hex_path ram_path : Text) → (timeout_cycles : ℕ) → List Text
sim_command sim hex_path ram_path timeout_cycles =
    sim
    ∷ codes "--rom"
    ∷ hex_path
    ∷ codes "--ram"
    ∷ ram_path
    ∷ codes "--timeout-cycles"
    ∷ format_dec timeout_cycles
    ∷ []

-- run_sim: what the simulator prints, given the text of its RAM file and its arguments.
unfoldable pub run_sim :
    (Text → List Text → Process)
    → (sim hex_path ram_path : Text) → (timeout_cycles : ℕ) → Result BenchError Text
run_sim simulator sim hex_path ram_path timeout_cycles =
    run (simulator empty_ram (sim_command sim hex_path ram_path timeout_cycles))

-- The first line of the compiler's version; `splitlines()[0]` of an empty output raises.
abbrev pub first_line : List Text → Result BenchError Text
first_line [] = err (value_error [])
first_line (line ∷ lines) = ok line

unfoldable pub toolchain_version : Process → Result BenchError Text
toolchain_version proc = elim (run proc) [
  | err stopped ↦ ok (codes "unknown")
  | ok text ↦ first_line (split_lines text)
]

unfoldable pub git_commit : Process → Text
git_commit proc = elim (run proc) [ err stopped ↦ codes "unknown" | ok text ↦ strip text ]

-- --benchmark
pub data Selection : Type 0 where
  all_benchmarks : Selection
  only_coremark : Selection
  only_dhrystone : Selection

abbrev pub with_coremark : Selection → Bool
with_coremark all_benchmarks = true
with_coremark only_coremark = true
with_coremark only_dhrystone = false

abbrev pub with_dhrystone : Selection → Bool
with_dhrystone all_benchmarks = true
with_dhrystone only_coremark = false
with_dhrystone only_dhrystone = true

-- A row of the results.
pub data ResultRow : Type 0 where
  of_coremark : Row → ResultRow
  of_dhrystone : DhrystoneRow → ResultRow

module _ (coremark : Text → Result BenchError (List Row))
    (dhrystone : Text → Result BenchError DhrystoneRow) where
  -- One round of the loop: what an ISA adds to the results.
  unfoldable pub isa_results : Selection → Text → Result BenchError (List ResultRow)
  isa_results selection isa = do
    coremark_rows ←
        if with_coremark selection
        then (do rows ← coremark isa; ok (map of_coremark rows))
        else ok []
    dhrystone_rows ←
        if with_dhrystone selection
        then (do row ← dhrystone isa; ok (of_dhrystone row ∷ []))
        else ok []
    ok (coremark_rows ++ dhrystone_rows)

  unfoldable pub all_results :
      Selection → List Text → List ResultRow → Result BenchError (List ResultRow)
  all_results selection [] results = ok results
  all_results selection (isa ∷ isas) results = do
    rows ← isa_results selection isa
    all_results selection isas (results ++ rows)

-- What main collects; the time, and the two fields of fixed text, are left out.
pub record Summary : Type 0 where
  pub commit : Text
  pub toolchain : Text
  pub simulator : Text
  pub mode : Text
  pub results : List ResultRow

module _ (coremark : Text → Result BenchError (List Row))
    (dhrystone : Text → Result BenchError DhrystoneRow) where
  -- The summary of main, from its options and the two processes that it asks for versions.
  unfoldable pub bench_summary :
      Selection
      → (sim isas : Text) → (smoke : Bool) → (git gcc : Process) → Result BenchError Summary
  bench_summary selection sim isas smoke git gcc = do
    toolchain ← toolchain_version gcc
    results ← all_results coremark dhrystone selection (words isas) []
    ok (record {
      commit = git_commit git;
      toolchain = toolchain;
      simulator = sim;
      mode = if smoke then codes "smoke" else codes "publish";
      results = results;
    })

-- The code that the program ends with, before the system reduces it to a byte; an exception that is
-- not caught ends it with 1, too.
unfoldable pub exit_code : Result BenchError Summary → ℤ
exit_code (ok summary) = pos 0
exit_code (err (system_exit code)) = code
exit_code (err _) = pos 1
