-- ===== src/Cosim/Build.antt =====
-- write_elf, elf_to_hex and the commands of verification/cosim/spike_lockstep.py, and how run_one_seed
-- puts them together. What a tool does is a parameter: the source of the program and the tool's
-- arguments give its exit code or its output. The paths of the repository are those of its root.
pub mod Laws
pub mod Seed
use sisrv_platform.Prelude.{
  ℤ, is_zero, ℕ, List, [], ◌∷◌, ◌++◌, Text, codes, join_with, Result, ok, err, ◌>>=◌, ◌>>◌, ensure,
  ◌==◌, Bool, Option,
}
use sisrv_platform.Cosim.Compare.{Failure}
use sisrv_platform.Cosim.Programs.{Profile, ProfileConfig, profile_config, gen_program_asm}
use sisrv_platform.Cosim.Driver.{
  Crash, gcc_failed, SpikeRun, SimRun, SeedTools, spike_command, run_one_seed,
}

abbrev pub source_header : List Text
source_header = codes ".section .text.init" ∷ codes ".globl _start" ∷ codes "_start:" ∷ []

-- prog.S
unfoldable pub program_text : List Text → Text
program_text program_lines = join_with (codes "\n") (source_header ++ program_lines) ++ codes "\n"

-- The paths in the directory of a seed.
abbrev pub in_dir : (out_dir name : Text) → Text
in_dir out_dir name = out_dir ++ b'/' ∷ name

unfoldable pub gcc_command : (prefix march link_ld out_dir : Text) → List Text
gcc_command prefix march link_ld out_dir =
    (prefix ++ codes "gcc")
    ∷ (codes "-march=" ++ march)
    ∷ codes "-mabi=ilp32"
    ∷ codes "-Wl,-melf32lriscv"
    ∷ codes "-nostdlib"
    ∷ codes "-nostartfiles"
    ∷ codes "-static"
    ∷ codes "-O2"
    ∷ codes "-T"
    ∷ link_ld
    ∷ codes "-o"
    ∷ in_dir out_dir (codes "prog.elf")
    ∷ in_dir out_dir (codes "prog.S")
    ∷ []

-- What the tools answer, given the source of the program and their arguments.
pub record Machine : Type 0 where
  pub gcc : Text → List Text → ℤ
  pub elf_to_hex : Text → List Text → ℤ
  pub spike : Text → List Text → SpikeRun
  pub verilator : Text → List Text → SimRun

-- write_elf: the path of the ELF file
unfoldable pub write_elf :
    Machine
    → (prefix : Text) → (program_lines : List Text) → (march link_ld out_dir : Text)
    → Result Crash Text
write_elf machine prefix program_lines march link_ld out_dir = do
  let cmd = gcc_command prefix march link_ld out_dir
  ensure (is_zero (machine.gcc (program_text program_lines) cmd)) gcc_failed
  ok (in_dir out_dir (codes "prog.elf"))

unfoldable pub elf_to_hex_command : (python elf2sisrv elf rom_hex ram_hex : Text) → List Text
elf_to_hex_command python elf2sisrv elf rom_hex ram_hex =
    python ∷ elf2sisrv ∷ elf ∷ rom_hex ∷ ram_hex ∷ []

unfoldable pub verilator_command : (sim commit_log : Text) → List Text
verilator_command sim commit_log =
    sim ∷ codes "--timeout-cycles" ∷ codes "1500" ∷ codes "--commit-log" ∷ commit_log ∷ []

-- The paths that the workers share.
pub record Paths : Type 0 where
  pub repo : Text
  pub python : Text
  pub sim_path : Text

abbrev pub succeeds {ℓ} : {E : Type 0} {A : Type ℓ} → Result E A → Bool
succeeds (ok a) = Bool.true
succeeds (err e) = Bool.false

-- The calls of run_one_seed for one program, up to the comparison.
unfoldable pub seed_tools :
    Machine → Paths → (prefix work : Text) → Profile → (program_lines : List Text) → SeedTools
seed_tools machine paths prefix work profile program_lines =
    let config = profile_config profile in
    let elf = in_dir work (codes "prog.elf") in
    let source = program_text program_lines in
    record {
      gcc_ok = succeeds (
          write_elf machine prefix program_lines config.march
            (paths.repo ++ codes "/verification/cosim/link.ld") work);
      elf_to_hex_ok = is_zero (
          machine.elf_to_hex source (
            elf_to_hex_command paths.python
              (paths.repo ++ codes "/verification/riscof/scripts/elf2sisrv.py") elf
              (in_dir work (codes "rom.hex")) (in_dir work (codes "ram.hex"))));
      spike_run = machine.spike source (spike_command config elf);
      sim_run =
          machine.verilator source
            (verilator_command paths.sim_path (in_dir work (codes "rtl.log")));
    }

-- run_one_seed, from the random generator of the seed on
unfoldable pub run_seed :
    Machine
    → Paths
    → (prefix work : Text) → Profile
    → (draw : ℕ → ℕ → ℕ) → (insns seed : ℕ) → Result Crash (Option Failure)
run_seed machine paths prefix work profile draw insns seed =
    run_one_seed
      (seed_tools machine paths prefix work profile (gen_program_asm (draw seed) insns profile))
      seed insns
