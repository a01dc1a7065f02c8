-- ===== src/Cosim/Driver.antt =====
-- `run_spike`, `run_verilator`, `run_one_seed` and `main` of verification/cosim/spike_lockstep.py.
-- What the compiler, the two simulators and the pool of workers do is a parameter.
pub mod Verdict
use sisrv_platform.Prelude.{
  ℤ, is_zero, lower, ℕ, zero, suc, ◌+◌, ◌%◌, Bool, true, false, not, ◌&&◌, ◌||◌, Option, none, some,
  List, [], ◌∷◌, ◌++◌, map, Text, codes, contains, Result, ok, err, ◌>>=◌, ◌>>◌, ensure, ltb, leb,
  ◌==◌, if◌then◌else◌,
}
use sisrv_platform.Cosim.Logs.{Commit, parse_rtl_commits, spike_program_commits}
use sisrv_platform.Cosim.Compare.{Failure, is_empty, compare_commits}
use sisrv_platform.Cosim.Programs.{Profile, ProfileConfig, profile_config}

-- An exception that a worker does not catch.
pub data Crash : Type 0 where
  gcc_failed : Crash
  elf_to_hex_failed : Crash
  spike_failed : ℤ → Crash
  no_commit_trace : Crash
  verilator_failed : Crash
  verilator_exit : ℤ → Crash

-- How the Spike process ended; output that is missing is `None`.
pub data SpikeRun : Type 0 where
  timed_out : (stdout stderr : Option Text) → SpikeRun
  exited : (returncode : ℤ) (stdout stderr : Option Text) → SpikeRun

pub record SimRun : Type 0 where
  pub returncode : ℤ
  pub stdout : Option Text
  pub stderr : Option Text
  pub commit_log : Option Text

-- `_as_str`, after decoding
unfoldable pub as_str : Option Text → Text
as_str none = []
as_str (some s) = s

-- cmd.insert(2, arg)
abbrev pub insert_second : Text → List Text → List Text
insert_second arg (a ∷ b ∷ rest) = a ∷ b ∷ arg ∷ rest
insert_second arg short = short ++ arg ∷ []

abbrev pub add_option : Text → Option Text → List Text → List Text
add_option flag none cmd = cmd
add_option flag (some value) cmd = insert_second (flag ++ value) cmd

unfoldable pub spike_command : ProfileConfig → Text → List Text
spike_command config elf = add_option (codes "--pmpregions=") config.spike_pmpregions (
    add_option (codes "--priv=") config.spike_priv (
      codes "spike"
      ∷ (codes "--isa=" ++ config.spike_isa)
      ∷ codes "-m0x2000:0x1fe000,0x80000000:0x40000"
      ∷ codes "-l"
      ∷ elf
      ∷ []))

unfoldable pub run_spike : SpikeRun → Result Crash (List Commit)
run_spike (timed_out stdout stderr) = ok (spike_program_commits (as_str stdout ++ as_str stderr))
run_spike (exited returncode stdout stderr) = do
  let commits = spike_program_commits (as_str stdout ++ as_str stderr)
  ensure (not (is_empty commits && not (is_zero returncode))) (spike_failed returncode)
  ensure (not (is_empty commits)) no_commit_trace
  ok commits

unfoldable pub run_verilator : SimRun → Result Crash (List Commit)
run_verilator run = do
  let out = as_str run.stdout ++ as_str run.stderr
  ensure (not (contains out (codes "FAIL") || contains (map lower out) (codes "illegal")))
      verilator_failed
  ensure (not (not (contains out (codes "TIMEOUT")) && not (is_zero run.returncode)))
      (verilator_exit run.returncode)
  ok (parse_rtl_commits run.commit_log)

-- What the tools do for one seed.
pub record SeedTools : Type 0 where
  pub gcc_ok : Bool
  pub elf_to_hex_ok : Bool
  pub spike_run : SpikeRun
  pub sim_run : SimRun

-- `compare_commits` alone stands in the `try`: its failure is the worker's result.
abbrev pub caught : Result Failure (Unit {0}) → Option Failure
caught (ok _) = none
caught (err failure) = some failure

unfoldable pub run_one_seed : SeedTools → ℕ → ℕ → Result Crash (Option Failure)
run_one_seed tools seed insns = do
  ensure tools.gcc_ok gcc_failed
  ensure tools.elf_to_hex_ok elf_to_hex_failed
  spike_commits ← run_spike tools.spike_run
  rtl_commits ← run_verilator tools.sim_run
  ok (caught (compare_commits seed spike_commits rtl_commits insns))

-- The results of the seeds `range(seeds)`, with the seeds left and the next one.
unfoldable pub task_results : (ℕ → SeedTools) → ℕ → ℕ → ℕ → List (Result Crash (Option Failure))
task_results tools insns zero seed = []
task_results tools insns (suc left) seed =
    run_one_seed (tools seed) seed insns ∷ task_results tools insns left (seed + 1)

-- How `main` ends: the code that it returns, or an exception out of a worker.
pub data Exit : Type 0 where
  returns : ℕ → Exit
  raises : Crash → Exit

-- The loop over the results, in the order in which the pool delivers them, and the number of
-- progress lines printed.
unfoldable pub drain : List (Result Crash (Option Failure)) → ℕ → ℕ → Exit × ℕ
drain [] completed printed = (returns 0, printed)
drain (err crash ∷ results) completed printed = (raises crash, printed)
drain (ok (some failure) ∷ results) completed printed = (returns 1, printed)
drain (ok none ∷ results) completed printed =
    drain results (completed + 1) (if (completed + 1) % 500 == 0 then printed + 1 else printed)

-- The prefixes that `find_toolchain` tries, first to last.
abbrev pub toolchain_prefixes : List Text
toolchain_prefixes =
    codes "riscv64-unknown-elf-" ∷ codes "riscv64-elf-" ∷ codes "riscv64-linux-gnu-" ∷ []

unfoldable pub find_toolchain : (Text → Bool) → List Text → Option Text
find_toolchain which [] = none
find_toolchain which (prefix ∷ prefixes) =
    let later = find_toolchain which prefixes in
    if which (prefix ++ codes "gcc") then some prefix else later

-- The checks before the loop, each of which returns 1.
unfoldable pub main :
    (which : Text → Bool) (sim_is_file require_spike : Bool)
    → List (Result Crash (Option Failure))
    → Exit
main which false require_spike results = returns 1
main which true require_spike results = elim (find_toolchain which toolchain_prefixes) [
  | none ↦ returns 1
  | some prefix ↦
      if require_spike && not (which (codes "spike")) then returns 1 else (drain results 0 0).0
]
