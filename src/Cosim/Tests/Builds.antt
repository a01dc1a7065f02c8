-- ===== src/Cosim/Tests/Builds.antt =====
-- The program of a seed, and the tools that build and run it.
use sisrv_platform.Prelude.{pos, ◌≡◌, refl, none, some, codes, ok, err, join_with}
use sisrv_platform.Cosim.Programs.{rv32im, gen_program_asm}
use sisrv_platform.Cosim.Driver.{gcc_failed, timed_out}
use sisrv_platform.Cosim.Build.{
  Machine, Paths, program_text, gcc_command, write_elf, elf_to_hex_command, verilator_command,
  seed_tools, run_seed,
}
use sisrv_platform.Cosim.Build.Seed.{IsPassed, run_seed-IsPassed}
use sisrv_platform.Cosim.Tests.{program, spike_log, rtl_text}

build_program : Unit {0}
unfolding program join_with program_text gcc_command write_elf elf_to_hex_command verilator_command
    seed_tools run_seed
build_program = tt

one_word_source :
    program_text (gen_program_asm (λ i. 0) 1 rv32im)
    ≡ codes ".section .text.init\n.globl _start\n_start:\n.word 0x00000013\n.word 0x0000006f\n"
unfolding build_program
one_word_source = refl

-- Tools that work, and a compiler that does not.
abbrev machine : Machine
machine = record {
  gcc = λ source cmd. pos 0;
  elf_to_hex = λ source cmd. pos 0;
  spike = λ source cmd. timed_out (some spike_log) none;
  verilator = λ source cmd. record {
    returncode = pos 1;
    stdout = some (codes "*** TIMEOUT ***");
    stderr = none;
    commit_log = some rtl_text;
  };
}

abbrev paths : Paths
paths = record {
  repo = codes "/repo";
  python = codes "/usr/bin/python3";
  sim_path = codes "/repo/sim";
}

broken_gcc :
    run_seed
      (record machine { gcc = λ source cmd. pos 1 })
      paths
      (codes "riscv64-elf-")
      (codes "/tmp/a")
      rv32im
      (λ seed i. 1)
      1
      0
    ≡ err gcc_failed
unfolding build_program
broken_gcc = refl

passing_seed :
    run_seed machine paths (codes "riscv64-elf-") (codes "/tmp/a") rv32im (λ seed i. 1) 1 0
    ≡ ok none
unfolding build_program
passing_seed = refl

run_seed-IsPassed_example :
    IsPassed machine paths
      (codes "riscv64-elf-")
      (codes "/tmp/a")
      rv32im
      (gen_program_asm (λ i. 1) 1 rv32im)
      1
run_seed-IsPassed_example =
    run_seed-IsPassed machine paths (codes "riscv64-elf-") (codes "/tmp/a") rv32im (λ seed i. 1) 1 0
      passing_seed
