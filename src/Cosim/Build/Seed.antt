-- ===== src/Cosim/Build/Seed.antt =====
-- What a worker that reports nothing has done with the program of its seed.
use sisrv_platform.Prelude.{
  pos, is_zero-pos, join_with, Option, some, [], ◌∷◌, ◌≤◌, min, length, take, sym, ap, ◌∙◌, ℕ, ◌≡◌,
  refl, Bool, true, false, none, List, Text, codes, ok, ◌>>◌, >>=-eq-ok, ensure, ◌++◌,
}
use sisrv_platform.Cosim.Logs.{Commit}
use sisrv_platform.Cosim.Programs.{Profile, ProfileConfig, profile_config, gen_program_asm}
use sisrv_platform.Cosim.Driver.{
  SpikeRun, SimRun, run_spike, run_verilator, spike_command, add_option, Crash, SeedTools,
  gcc_failed, elf_to_hex_failed, run_one_seed,
}
use sisrv_platform.Cosim.Driver.Verdict.{InLockStep, run_one_seed-InLockStep}
use sisrv_platform.Cosim.Build.{
  Machine, Paths, program_text, gcc_command, elf_to_hex_command, verilator_command, write_elf,
  in_dir, seed_tools, run_seed, succeeds,
}

run_one_seed-built :
    (tools : SeedTools) (seed insns : ℕ)
    → run_one_seed tools seed insns ≡ ok none
    → (tools.gcc_ok ≡ true) × (tools.elf_to_hex_ok ≡ true)
unfolding run_one_seed
run_one_seed-built tools seed insns h =
    let (_, compiled, h1) = >>=-eq-ok (ensure tools.gcc_ok gcc_failed) _ h in
    let (_, converted, _) = >>=-eq-ok (ensure tools.elf_to_hex_ok elf_to_hex_failed) _ h1 in
    (passed tools.gcc_ok _ _ compiled, passed tools.elf_to_hex_ok _ _ converted)
  where
    passed : (b : Bool) (e : Crash) (u : Unit {0}) → ensure b e ≡ ok u → b ≡ true
    passed false _ _ h = cc
    passed true _ _ h = refl

module _ (machine : Machine) (paths : Paths) (prefix work : Text) (profile : Profile) where
  -- The file that the program is written to.
  abbrev source_of : List Text → Text
  source_of program_lines =
      join_with (codes "\n")
        (codes ".section .text.init" ∷ codes ".globl _start" ∷ codes "_start:" ∷ program_lines)
      ++ codes "\n"

  abbrev work_file : Text → Text
  work_file file = work ++ b'/' ∷ file

  -- An option of Spike that a profile may have.
  abbrev maybe_option : Text → Option Text → List Text
  maybe_option flag none = []
  maybe_option flag (some value) = (flag ++ value) ∷ []

  -- What Spike and the simulator of the core answer for a program, each given the file that the ELF
  -- file was made of, and its whole command.
  abbrev spike_answer : Text → SpikeRun
  spike_answer source = machine.spike source (
      codes "spike"
      ∷ (codes "--isa=" ++ (profile_config profile).spike_isa)
      ∷ (maybe_option (codes "--pmpregions=") (profile_config profile).spike_pmpregions
          ++ (maybe_option (codes "--priv=") (profile_config profile).spike_priv
              ++ codes "-m0x2000:0x1fe000,0x80000000:0x40000"
                ∷ codes "-l"
                ∷ work_file (codes "prog.elf")
                ∷ [])))

  abbrev sim_answer : Text → SimRun
  sim_answer source = machine.verilator source (
      paths.sim_path
      ∷ codes "--timeout-cycles"
      ∷ codes "1500"
      ∷ codes "--commit-log"
      ∷ work_file (codes "rtl.log")
      ∷ [])

  -- The program was compiled and converted, and its two traces agree; the commands are written out.
  pub record IsPassed (program_lines : List Text) (insns : ℕ) : Type 0 where
    pub compiled :
        machine.gcc (source_of program_lines) (
          (prefix ++ codes "gcc")
          ∷ (codes "-march=" ++ (profile_config profile).march)
          ∷ codes "-mabi=ilp32"
          ∷ codes "-Wl,-melf32lriscv"
          ∷ codes "-nostdlib"
          ∷ codes "-nostartfiles"
          ∷ codes "-static"
          ∷ codes "-O2"
          ∷ codes "-T"
          ∷ (paths.repo ++ codes "/verification/cosim/link.ld")
          ∷ codes "-o"
          ∷ work_file (codes "prog.elf")
          ∷ work_file (codes "prog.S")
          ∷ [])
        ≡ pos 0
    pub converted :
        machine.elf_to_hex (source_of program_lines) (
          paths.python
          ∷ (paths.repo ++ codes "/verification/riscof/scripts/elf2sisrv.py")
          ∷ work_file (codes "prog.elf")
          ∷ work_file (codes "rom.hex")
          ∷ work_file (codes "ram.hex")
          ∷ [])
        ≡ pos 0
    pub spike : List Commit
    pub rtl : List Commit
    pub of_spike : run_spike (spike_answer (source_of program_lines)) ≡ ok spike
    pub of_rtl : run_verilator (sim_answer (source_of program_lines)) ≡ ok rtl
    pub enough : insns ≤ min (length spike) (length rtl)
    pub agree :
        take (min (length spike) (length rtl)) spike ≡ take (min (length spike) (length rtl)) rtl

  -- The options are inserted one after the other behind the architecture.
  spike_command-words :
      (config : ProfileConfig) (elf : Text)
      → spike_command config elf
        ≡ codes "spike"
          ∷ (codes "--isa=" ++ config.spike_isa)
          ∷ (maybe_option (codes "--pmpregions=") config.spike_pmpregions
              ++ (maybe_option (codes "--priv=") config.spike_priv
                  ++ codes "-m0x2000:0x1fe000,0x80000000:0x40000" ∷ codes "-l" ∷ elf ∷ []))
  unfolding spike_command
  spike_command-words config elf = both config.spike_pmpregions config.spike_priv
    where
      start : List Text
      start = codes "spike" ∷ (codes "--isa=" ++ config.spike_isa) ∷ []

      rest : List Text
      rest = codes "-m0x2000:0x1fe000,0x80000000:0x40000" ∷ codes "-l" ∷ elf ∷ []

      both :
          (regions priv : Option Text)
          → add_option
              (codes "--pmpregions=")
              regions
              (add_option (codes "--priv=") priv (start ++ rest))
            ≡ start
              ++ (maybe_option (codes "--pmpregions=") regions
                  ++ (maybe_option (codes "--priv=") priv ++ rest))
      both none none = refl
      both none (some p) = refl
      both (some r) none = refl
      both (some r) (some p) = refl

  -- A worker that reports nothing has written the program of its seed behind the header's three lines,
  -- compiled that file with the profile's architecture and converted the ELF file, both with exit code
  -- 0; and Spike, run on that ELF file with the profile's architecture and options, and the simulator
  -- give traces for it that agree as far as the shorter one goes, which has as many commits as are
  -- asked for.
  pub run_seed-IsPassed :
      (draw : ℕ → ℕ → ℕ) (insns seed : ℕ)
      → run_seed machine paths prefix work profile draw insns seed ≡ ok none
      → IsPassed (gen_program_asm (draw seed) insns profile) insns
  unfolding run_seed seed_tools write_elf gcc_command elf_to_hex_command verilator_command
      program_text
  run_seed-IsPassed draw insns seed h =
      let lines : List Text = gen_program_asm (draw seed) insns profile in
      let (built, exited) =
        run_one_seed-built (seed_tools machine paths prefix work profile lines) seed insns h in
      let step : InLockStep (seed_tools machine paths prefix work profile lines) insns =
        run_one_seed-InLockStep (seed_tools machine paths prefix work profile lines) seed insns h in
      record {
        compiled = is_zero-pos _ (checked _ built);
        converted = is_zero-pos _ exited;
        spike = step.spike;
        rtl = step.rtl;
        of_spike =
            ap (λ (cmd : List Text). run_spike (machine.spike (source_of lines) cmd))
              (sym (spike_command-words (profile_config profile) (work_file (codes "prog.elf"))))
            ∙ step.of_spike;
        of_rtl = step.of_rtl;
        enough = step.enough;
        agree = step.agree;
      }
    where
      checked :
          (b : Bool)
          → succeeds (ensure b gcc_failed >> ok (in_dir work (codes "prog.elf"))) ≡ true
          → b ≡ true
      checked false e = cc
      checked true e = refl
