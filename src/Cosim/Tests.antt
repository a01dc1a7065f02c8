-- ===== src/Cosim/Tests.antt =====
-- Small traces, and the theorems of the lock-step comparison at them.
mod Builds
use mathlib.Core.List.Perm
use sisrv_platform.Prelude.{
  pos, negsuc, Field, ℕ, ◌-◌, ◌≤◌, ◌<◌, ◌≡◌, ◌≢◌, ◌↔◌, refl, Bool, true, none, some, List, [], ◌∷◌,
  ◌++◌, map, All, Text, codes, length, take, min, ok, err, parse_hex, span, run1, literal,
  lines_from, split_lines, strip, strip_left, strip_right, format_08x, low_digits, high_digits,
}
use sisrv_platform.Cosim.Logs.{
  Commit, at_end, match_rtl, match_spike, search_spike, collect, parse_spike_commits,
  parse_rtl_commits, at_or_above, spike_program_commits,
}
use sisrv_platform.Cosim.Logs.RoundTrip.{Retired, commit_of, rtl_log, parse_rtl_commits-rtl_log}
use sisrv_platform.Cosim.Compare.{compare_from, compare_commits, mismatch, insufficient}
use sisrv_platform.Cosim.Compare.Verdict.{
  compare_commits-ok_iff, compare_commits-mismatch, FirstDifference,
}
use sisrv_platform.Cosim.Programs.{
  profile_config, rv32im, rv32imac_u_pmp, draw_words, gen_program_words, draw_lines,
  gen_program_asm, tail_loop, nop,
}
use sisrv_platform.Cosim.Programs.Shape.{IsPlainWord, gen_program_words-shape}
use sisrv_platform.Cosim.Driver.{
  timed_out, exited, SeedTools, as_str, run_spike, run_verilator, run_one_seed, task_results, drain,
  find_toolchain, toolchain_prefixes, main, returns, spike_command, no_commit_trace,
}
use sisrv_platform.Cosim.Driver.Verdict.{InLockStep, run_one_seed-InLockStep, main-InLockStep}

program : Unit {0}
unfolding parse_hex span run1 literal lines_from split_lines strip strip_left strip_right at_end
    match_rtl match_spike search_spike collect parse_spike_commits parse_rtl_commits at_or_above
    spike_program_commits compare_from compare_commits profile_config draw_words gen_program_words
    draw_lines gen_program_asm as_str run_spike run_verilator run_one_seed task_results drain
    find_toolchain main spike_command format_08x low_digits high_digits
program = tt

abbrev spike_log : Text
spike_log =
    codes "core   0: 0x00001000 (0x00000297) auipc   t0, 0x0\n"
    ++ codes "core   0: 0x00002000 (0x00100093) li      ra, 1\r\n"
    ++ codes "warning: no terminal\n"
    ++ codes "core   0: 0x00002004 (0x0000006f) j       pc + 0x0\n"

abbrev rtl_text : Text
rtl_text = codes "00002000 00100093 1 00000001 1\n00002004 0000006F 0 00000000 0\n\n"

abbrev commits : List Commit
commits = (0x2000, 0x0010_0093) ∷ (0x2004, 0x0000_006f) ∷ []

spike_program_commits-spike_log : spike_program_commits spike_log ≡ commits
unfolding program
spike_program_commits-spike_log = refl

parse_rtl_commits-rtl_text : parse_rtl_commits (some rtl_text) ≡ commits
unfolding program
parse_rtl_commits-rtl_text = refl

compare_short : compare_commits 7 commits (take 1 commits) 2 ≡ err (insufficient 7 2 1 2)
unfolding program
compare_short = refl

abbrev skewed : List Commit
skewed = (0x2000, 0x0010_0093) ∷ (0x2008, 0x0000_006f) ∷ []

compare_skewed : compare_commits 7 commits skewed 1 ≡ err (mismatch 7 1 0x2004 0x6f 0x2008 0x6f)
unfolding program
compare_skewed = refl

gen_three : gen_program_words (λ i. 3 - i) 3 ≡ nop ∷ 0x0020_8133 ∷ 0x0010_0093 ∷ tail_loop ∷ []
unfolding program
gen_three = refl

gen_asm_one :
    gen_program_asm (λ i. 0) 1 rv32im ≡ codes ".word 0x00000013" ∷ codes ".word 0x0000006f" ∷ []
unfolding program
gen_asm_one = refl

spike_command_pmp :
    spike_command (profile_config rv32imac_u_pmp) (codes "prog.elf")
    ≡ codes "spike"
      ∷ codes "--isa=rv32imac_zicsr"
      ∷ codes "--pmpregions=8"
      ∷ codes "--priv=mu"
      ∷ codes "-m0x2000:0x1fe000,0x80000000:0x40000"
      ∷ codes "-l"
      ∷ codes "prog.elf"
      ∷ []
unfolding program
spike_command_pmp = refl

spike_silent : run_spike (exited (pos 0) none none) ≡ err no_commit_trace
unfolding program
spike_silent = refl

abbrev good_tools : SeedTools
good_tools = record {
  gcc_ok = true;
  elf_to_hex_ok = true;
  spike_run = timed_out (some spike_log) none;
  sim_run = record {
    returncode = pos 1;
    stdout = some (codes "*** TIMEOUT ***");
    stderr = some [];
    commit_log = some rtl_text;
  };
}

good_seed : run_one_seed good_tools 0 2 ≡ ok none
unfolding program
good_seed = refl

every_tool : Text → Bool
every_tool name = true

good_run : main every_tool true true (task_results (λ seed. good_tools) 2 3 0) ≡ returns 0
unfolding program every_tool
good_run = refl

abbrev zero_field : Field
zero_field = record { first = b'0'; more = []; digits = (refl, tt) }

abbrev one_retired : Retired
one_retired = record {
  pc = record { first = b'2'; more = codes "0C"; digits = (refl, (refl, (refl, tt))) };
  insn = record { first = b'6'; more = codes "f"; digits = (refl, (refl, tt)) };
  rd = zero_field;
  wdata = zero_field;
  we = zero_field;
}

parse_rtl_commits-rtl_log_example :
    parse_rtl_commits (some (rtl_log (one_retired ∷ []))) ≡ map commit_of (one_retired ∷ [])
parse_rtl_commits-rtl_log_example = parse_rtl_commits-rtl_log (one_retired ∷ [])

compare_commits-ok_iff_example : (compare_commits 7 commits skewed 1 ≡ ok tt) ↔ (
    (commits ≢ [])
    × (skewed ≢ [])
    × (1 ≤ min (length commits) (length skewed))
    × (take (min (length commits) (length skewed)) commits
        ≡ take (min (length commits) (length skewed)) skewed))
compare_commits-ok_iff_example = compare_commits-ok_iff 7 commits skewed 1

compare_commits-mismatch_example :
    (◌≡◌ {A = ℕ} 7 7) × FirstDifference 1 commits skewed (0x2004, 0x6f) (0x2008, 0x6f)
compare_commits-mismatch_example =
    compare_commits-mismatch 7 commits skewed 1 7 1 0x2004 0x6f 0x2008 0x6f compare_skewed

run_one_seed-InLockStep_example : InLockStep good_tools 2
run_one_seed-InLockStep_example = run_one_seed-InLockStep good_tools 0 2 good_seed

main-InLockStep_example :
    (◌≡◌ {A = Bool} true true)
    × (find_toolchain every_tool toolchain_prefixes ≢ none)
    × ((seed : ℕ) → seed < 3 → InLockStep good_tools 2)
main-InLockStep_example =
    main-InLockStep every_tool true true (λ seed. good_tools) 2 3
      (task_results (λ seed. good_tools) 2 3 0) (Perm.refl _) good_run
