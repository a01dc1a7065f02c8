-- ===== src/Riscof/Tests/Runs.antt =====
-- Tests of the RISCOF plugins: their runs.
use sisrv_platform.Prelude.{
  ℤ, pos, negsuc, List, some, ◌≡◌, refl, true, false, [], ◌∷◌, ◌++◌, codes, ok, err,
}
use sisrv_platform.Riscof.Format.Pieces.{IsPlain-of_all}
use sisrv_platform.Riscof.Machine.{system_exit, value_error}
use sisrv_platform.Riscof.Sisrv.Symbols.{
  Word, NmLine, defined, undefined, nm_text, symbol_addr-nm_text,
}
use sisrv_platform.Riscof.Sisrv.Run.{int_16, symbol_addr, Entry, compile_command, run_tests}
use sisrv_platform.Riscof.Sisrv.Command.{compile_text, compile_command-text}
use sisrv_platform.Riscof.Sisrv.Trace.{compiled, converted}
use sisrv_platform.Riscof.Sisrv.Outcome.{
  Explains, IsRunnable, commands_of, run_tests-Runs, run_tests-compiles_only, run_tests-completes,
  run_tests-missing_label,
}
use sisrv_platform.Riscof.Spike.{SpikePlugin, prepare_tests}
use sisrv_platform.Riscof.Spike.Setup.{spike_with}
use sisrv_platform.Riscof.Spike.Targets.{target_text, prepare_tests-targets}
use sisrv_platform.Riscof.Sisrv.{Session, initialise}
use sisrv_platform.Riscof.Sisrv.Whole.{build-run_tests}
use sisrv_platform.Riscof.Tests.{
  installed, program, plugin, session, env, python, name, line, nm, add_test, bad_test,
  IsPlain-prefix, IsPlain-path, IsPlain-env,
}

abbrev addresses : Entry → ℤ × ℤ
addresses test = (pos 0x80000100, pos 0x80000200)

compiles : (test : Entry) → compile_command python name session test ≡ ok (line test)
compiles test =
    compile_command-text plugin (codes "/suite") (codes "/work") env python name test IsPlain-prefix
      IsPlain-path IsPlain-env

add_runs : IsRunnable python name session nm line addresses add_test
unfolding program
add_runs = (compiles add_test, λ h. refl)

run_tests-completes_example :
    run_tests python name session nm (add_test ∷ add_test ∷ []) []
    ≡ (ok tt, commands_of python name session nm line addresses (add_test ∷ add_test ∷ []))
unfolding program
run_tests-completes_example =
    run_tests-completes python name session nm line addresses (add_test ∷ add_test ∷ []) [] refl
      (add_runs, (add_runs, tt))

run_tests-missing_label_example :
    run_tests python name session nm (add_test ∷ bad_test ∷ add_test ∷ []) [] ≡ (
      err (system_exit 1),
      commands_of python name session nm line addresses (add_test ∷ [])
          ++ compiled python name session nm bad_test (line bad_test)
            ∷ converted python name session nm bad_test
            ∷ [],
    )
unfolding program
run_tests-missing_label_example =
    run_tests-missing_label python name session nm line addresses (add_test ∷ []) bad_test
      (add_test ∷ []) [] refl (add_runs, tt) (compiles bad_test) refl

run_tests-Runs_example :
    Explains python name session nm []
      (add_test ∷ bad_test ∷ [])
      (run_tests python name session nm (add_test ∷ bad_test ∷ []) [])
unfolding program
run_tests-Runs_example = run_tests-Runs python name session nm (add_test ∷ bad_test ∷ []) [] refl

-- The same session without the target.
abbrev compile_only : Session
compile_only = record session { plugin = record session.plugin { target_run = false } }

compiles_only : (test : Entry) → compile_command python name compile_only test ≡ ok (line test)
unfolding program
compiles_only test = compiles test

run_tests-compiles_only_example :
    run_tests python name compile_only nm (add_test ∷ bad_test ∷ []) [] ≡ (
      err (system_exit 0),
      compiled python name compile_only nm add_test (line add_test)
          ∷ compiled python name compile_only nm bad_test (line bad_test)
          ∷ [],
    )
unfolding program
run_tests-compiles_only_example =
    run_tests-compiles_only python name compile_only nm line (add_test ∷ bad_test ∷ []) [] refl
      (compiles_only add_test, (compiles_only bad_test, tt))

abbrev spike : SpikePlugin
spike = record {
  dut_exe = codes "spike";
  num_jobs = codes "2";
  pluginpath = codes "/repo/verification/riscof/plugins/spike";
  isa_spec = codes "/repo/isa.yaml";
  platform_spec = codes "/repo/platform.yaml";
  make = codes "make";
  toolchain_prefix = codes "riscv64-unknown-elf-";
}

prepare_tests-targets_example :
    prepare_tests name
      (codes "rv32im")
      (spike_with spike (codes "/work") env spike.toolchain_prefix)
      true
      (add_test ∷ bad_test ∷ [])
    ≡ ok (record {
      makefile_path = codes "/work/Makefile.sisrv";
      make_command = codes "make -j2";
      targets =
          target_text spike (codes "/work") env name (codes "rv32im") true add_test
          ∷ target_text spike (codes "/work") env name (codes "rv32im") true bad_test
          ∷ [];
    })
unfolding program
prepare_tests-targets_example =
    prepare_tests-targets spike (codes "/work") env name (codes "rv32im") true
      (add_test ∷ bad_test ∷ []) (IsPlain-of_all spike.toolchain_prefix refl)
      (IsPlain-of_all spike.pluginpath refl) (IsPlain-of_all env refl)

abbrev t_word : Word
t_word = record { first = b'T'; more = []; no_space = (refl, tt) }

abbrev begin_word : Word
begin_word = record {
  first = b'b';
  more = codes "egin";
  no_space = (refl, (refl, (refl, (refl, (refl, tt)))));
}

abbrev nm_lines : List NmLine
nm_lines =
    undefined 9 t_word begin_word
    ∷ defined
        (record { first = b'8'; more = codes "0aF"; digits = (refl, (refl, (refl, (refl, tt)))) })
        t_word begin_word
    ∷ defined (record { first = b'0'; more = []; digits = (refl, tt) }) t_word begin_word
    ∷ []

hex_forms :
    (int_16 (codes "0x8000_0000") ≡ ok (pos 0x8000_0000))
    × (int_16 (codes "-5") ≡ ok (negsuc 4))
    × (int_16 (codes "+0X_a") ≡ ok (pos 10))
    × (int_16 (codes "8__0") ≡ err value_error)
    × (int_16 (codes "0x") ≡ err value_error)
unfolding program
hex_forms = (refl, refl, refl, refl, refl)

symbol_addr-nm_text_example :
    symbol_addr (record { returncode = pos 0; stdout = nm_text nm_lines }) (codes "begin")
    ≡ ok (some (pos 0x80af))
unfolding program
symbol_addr-nm_text_example = symbol_addr-nm_text (pos 0) (codes "begin") nm_lines

-- The session that build leaves, with the second fallback.
abbrev built : Session
built =
    initialise (record plugin { toolchain_prefix = codes "riscv64-linux-gnu-" }) (codes "/suite")
      (codes "/work") env

build-run_tests_example : run_tests python name built nm (add_test ∷ []) [] ≡ (
  ok tt,
  commands_of python name built nm
      (compile_text built.plugin (codes "/suite") (codes "/work") env)
      addresses
      (add_test ∷ []),
)
unfolding program
build-run_tests_example =
    build-run_tests plugin (codes "/suite") (codes "/work") env installed (32 ∷ []) b'r'
      (codes "iscv64-unknown-elf-") refl refl IsPlain-prefix IsPlain-path IsPlain-env (codes "32")
      built refl refl python name nm addresses (add_test ∷ []) [] (λ g. refl, tt)
