-- ===== src/Riscof/Tests.antt =====
-- Tests of the RISCOF plugins: their set-up and commands.
mod Runs
use sisrv_platform.Prelude.{
  parse_int_16, is_number, format_int, ℤ, pos, is_number, parse_int_16, format_int, words,
  words_from, join_with, any, after_last, split_lines, lines_from, format_dec, dec_digits,
  parse_hex, ℕ, ◌≡◌, refl, Bool, true, false, Option, none, some, List, [], ◌∷◌, ◌++◌, Text, codes,
  Result, ok, err, eq_text, if◌then◌else◌, All, starts_with, lower, map, contains, arith,
}
use sisrv_platform.Riscof.Format.{
  replace_from, interleave, format_step, format_from, replace, format, find,
}
use sisrv_platform.Riscof.Format.Laws.{IsPlain}
use sisrv_platform.Riscof.Format.Pieces.{IsPlain-of_all}
use sisrv_platform.Riscof.Paths.{
  ends_open, split_path, keep_part, keep_parts, norm_path, join_path, abs_path,
}
use sisrv_platform.Riscof.Paths.Laws.{path_of_names, IsName}
use sisrv_platform.Riscof.Machine.{Stop, system_exit, key_error, Command, Output, Nm}
use sisrv_platform.Riscof.Sisrv.{
  Lookup, Plugin, Session, Installed, init_plugin, compile_tail, first_fallback, sisrv_init,
  initialise, build, choose_toolchain,
}
use sisrv_platform.Riscof.Sisrv.Setup.{build-picks_first, build_result}
use sisrv_platform.Riscof.Sisrv.Root.{sisrv_init-root}
use sisrv_platform.Riscof.Sisrv.Command.{compile_text, compile_command-text}
use sisrv_platform.Riscof.Sisrv.Run.{
  find_symbol, convert_command, simulate_command, run_on_target, run_test, run_each, Entry,
  compile_command, run_tests, symbol_addr,
}
use sisrv_platform.Riscof.Sisrv.Trace.{compiled, converted, simulated}
use sisrv_platform.Riscof.Spike.{
  spike_init, init_spike, spike_tail, spike_target, add_targets, SpikePlugin, Make,
  initialise_spike, build_spike, prepare_tests, spike_isa, resolve_toolchain,
}
use sisrv_platform.Riscof.Spike.Setup.{spike_result, spike_with, build_spike-picks_first}
use sisrv_platform.Riscof.Spike.Targets.{target_text, prepare_tests-targets}

-- A repository at /repo, whose RISCOF configuration stands in verification/riscof.
abbrev config : Lookup
config key =
    if eq_text key (codes "ispec")
    then some (codes "isa.yaml")
    else if eq_text key (codes "pspec")
    then some (codes "platform.yaml")
    else none

abbrev no_environ : Lookup
no_environ key = none

abbrev config_dir : Option Text
config_dir = some (codes "/repo/verification/riscof")

abbrev plugin : Plugin
plugin =
    sisrv_init (codes "/tmp") no_environ config (codes "isa.yaml") (codes "platform.yaml")
      config_dir

program : Unit {0}
unfolding replace_from replace interleave find join_with words_from format_step format_from format
    ends_open join_path split_path keep_part keep_parts norm_path abs_path sisrv_init init_plugin
    compile_tail initialise first_fallback choose_toolchain build find_symbol symbol_addr
    compile_command convert_command simulate_command run_on_target run_test run_each run_tests
    parse_int_16 is_number format_int compile_text build_result path_of_names spike_init init_spike
    spike_tail initialise_spike resolve_toolchain spike_isa build_spike spike_target add_targets
    prepare_tests spike_result target_text after_last split_lines lines_from format_dec dec_digits
    parse_hex
program = tt

norm_path_up : norm_path (codes "/repo//a/./b/../../c") ≡ codes "/repo/c"
unfolding program
norm_path_up = refl

norm_path_leading : norm_path (codes "//a/..") ≡ codes "//"
unfolding program
norm_path_leading = refl

replace_all : replace (codes "ab") (codes "x") (codes "cababd") ≡ codes "cxxd"
unfolding program
replace_all = refl

format_fields : format (codes "{1}-{0}{{") (codes "a" ∷ codes "b" ∷ []) ≡ ok (codes "b-a{")
unfolding program
format_fields = refl

words_of_nm : words (codes "80000100  T begin ") ≡ codes "80000100" ∷ codes "T" ∷ codes "begin" ∷ []
unfolding program
words_of_nm = refl

missing_section : init_plugin (codes "/tmp") no_environ none config_dir ≡ err (system_exit 1)
unfolding program
missing_section = refl

missing_key :
    init_plugin (codes "/tmp") no_environ (some no_environ) config_dir
    ≡ err (key_error (codes "ispec"))
unfolding program
missing_key = refl

names_of_repo : All IsName (codes "repo" ∷ [])
names_of_repo =
    (record { some_text = refl; no_slash = ground arith; not_here = refl; not_up = refl }, tt)

names_below :
    All IsName (codes "verification" ∷ codes "riscof" ∷ codes "plugins" ∷ codes "sisrv" ∷ [])
names_below = (
  record { some_text = refl; no_slash = ground arith; not_here = refl; not_up = refl },
  (
    record { some_text = refl; no_slash = ground arith; not_here = refl; not_up = refl },
    (
      record { some_text = refl; no_slash = ground arith; not_here = refl; not_up = refl },
      (record { some_text = refl; no_slash = ground arith; not_here = refl; not_up = refl }, tt),
    ),
  ),
)

sisrv_init-root_example :
    (plugin.elf2sisrv
      ≡ path_of_names (
          codes "repo"
          ∷ codes "verification"
          ∷ codes "riscof"
          ∷ codes "scripts"
          ∷ codes "elf2sisrv.py"
          ∷ []))
    × (plugin.dut_exe
        ≡ path_of_names (codes "repo" ∷ codes "build" ∷ codes "sim_sisPlatformTop" ∷ []))
unfolding program
sisrv_init-root_example =
    sisrv_init-root (codes "/tmp") no_environ config (codes "isa.yaml") (codes "platform.yaml")
      config_dir (codes "repo") [] (codes "verification") (codes "riscof") (codes "plugins")
      (codes "sisrv") names_of_repo names_below refl refl

-- The machine has the second fallback only, and both files.
abbrev installed : Installed
installed = record {
  which = λ program. eq_text program (codes "riscv64-linux-gnu-gcc");
  is_file = λ path. true;
}

abbrev env : Text
env = codes "/suite/env"

abbrev session : Session
session = initialise plugin (codes "/suite") (codes "/work") env

build-picks_first_example :
    build installed (32 ∷ []) session
    ≡ build_result plugin (codes "/suite") (codes "/work") env installed (32 ∷ [])
unfolding program
build-picks_first_example =
    build-picks_first plugin (codes "/suite") (codes "/work") env installed (32 ∷ []) b'r'
      (codes "iscv64-unknown-elf-") refl refl

-- A prefix that is empty: the fallback is put before every character of the command.
empty_prefix_interleaves :
    choose_toolchain
      (λ program. eq_text program (codes "riscv64-linux-gnu-gcc"))
      (record {
        plugin = record plugin { toolchain_prefix = [] };
        work_dir = [];
        suite_dir = [];
        compile_cmd = codes "gcc";
      })
    ≡ ok (record {
      plugin = record plugin { toolchain_prefix = codes "riscv64-linux-gnu-" };
      work_dir = [];
      suite_dir = [];
      compile_cmd =
          codes "riscv64-linux-gnu-griscv64-linux-gnu-criscv64-linux-gnu-criscv64-linux-gnu-";
    })
unfolding program
empty_prefix_interleaves = refl

abbrev add_test : Entry
add_test = record {
  test_path = codes "/suite/src/add-01.S";
  entry_dir = codes "/work/add";
  isa = codes "RV32IM";
  macros = codes "TEST_CASE_1=True" ∷ codes "XLEN=32" ∷ [];
}

abbrev bad_test : Entry
bad_test = record {
  test_path = codes "/suite/src/bad-01.S";
  entry_dir = codes "/work/bad";
  isa = codes "RV32I";
  macros = codes "XLEN=32" ∷ [];
}

-- nm finds the labels in the first test's file only.
abbrev nm : Nm
nm args h =
    if any (λ arg. contains arg (codes "add-01.elf")) args
    then record {
      returncode = pos 0;
      stdout = codes "80000100 T begin_signature\n80000200 T end_signature\n";
    }
    else record { returncode = pos 0; stdout = codes "80000000 T rvtest_entry_point\n" }

abbrev python : Text
python = codes "/usr/bin/python3"

abbrev name : Text
name = codes "sisrv:"

abbrev line : Entry → Text
line test = compile_text plugin (codes "/suite") (codes "/work") env test

IsPlain-prefix : IsPlain plugin.toolchain_prefix
unfolding program
IsPlain-prefix = IsPlain-of_all plugin.toolchain_prefix refl

IsPlain-path : IsPlain plugin.pluginpath
unfolding program
IsPlain-path = IsPlain-of_all plugin.pluginpath refl

IsPlain-env : IsPlain env
IsPlain-env = IsPlain-of_all env refl
