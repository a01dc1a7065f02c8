-- ===== src/Riscof/Spike/Targets.antt =====
-- The targets that runTests of riscof_spike.py adds, as text.
use sisrv_platform.Prelude.{
  join_with, ◌≡◌, refl, ◌∙◌, ap, sym, Bool, List, [], ◌∷◌, ◌++◌, append_assoc, append-nil, Text,
  codes, Result, ok, err, map, lower, arith,
}
use sisrv_platform.Riscof.Format.{FormatError, format}
use sisrv_platform.Riscof.Format.Laws.{IsPlain}
use sisrv_platform.Riscof.Format.Pieces.{Piece, said, field, format_lem, IsPlain-of_all}
use sisrv_platform.Riscof.Paths.{join_path}
use sisrv_platform.Riscof.Machine.{Stop, format_error}
use sisrv_platform.Riscof.Sisrv.Run.{Entry, but_last}
use sisrv_platform.Riscof.Spike.{
  SpikePlugin, Make, elf_name, spike_target, add_targets, prepare_tests,
}
use sisrv_platform.Riscof.Spike.Setup.{spike_with}

abbrev flag_pieces : List Piece
flag_pieces =
    said (codes " --isa=")
    ∷ field 0
    ∷ said (codes " +signature=")
    ∷ field 1
    ∷ said (codes " +signature-granularity=4 ")
    ∷ field 2
    ∷ said (codes ";")
    ∷ []

format-flags :
    (isa sig_file elf : Text)
    → format
        (codes " --isa={0} +signature={1} +signature-granularity=4 {2};")
        (isa ∷ sig_file ∷ elf ∷ [])
      ≡ ok (
          codes " --isa="
          ++ (isa
              ++ (codes " +signature="
                  ++ (sig_file ++ (codes " +signature-granularity=4 " ++ (elf ++ codes ";"))))))
format-flags isa sig_file elf = format_lem (isa ∷ sig_file ∷ elf ∷ []) flag_pieces (
  IsPlain-of_all (codes " --isa=") refl,
  (
    (omega arith, refl),
    (
      IsPlain-of_all (codes " +signature=") refl,
      (
        (omega arith, refl),
        (
          IsPlain-of_all (codes " +signature-granularity=4 ") refl,
          ((omega arith, refl), (IsPlain-of_all (codes ";") refl, tt)),
        ),
      ),
    ),
  ),
)

module _ (plugin : SpikePlugin) (work_dir archtest_env name isa : Text) (with_cgf : Bool) where
  -- The compiler's part of a target.
  abbrev compiler_text : Entry → Text
  compiler_text test =
      plugin.toolchain_prefix
      ++ (codes "gcc -march="
          ++ (map lower test.isa
              ++ (codes " -static -mcmodel=medany -fvisibility=hidden -nostdlib -nostartfiles -T "
                  ++ (plugin.pluginpath
                      ++ (codes "/env/link.ld -I "
                          ++ (plugin.pluginpath
                              ++ (codes "/env/ -I "
                                  ++ (archtest_env ++ codes " -mabi=ilp32 "))))))))

  -- The text of a target.
  unfoldable pub target_text : Entry → Text
  target_text test =
      codes "@cd "
      ++ (test.entry_dir
          ++ (codes ";"
              ++ (compiler_text test
                  ++ (codes " "
                      ++ (test.test_path
                          ++ (codes " -o "
                              ++ (elf_name with_cgf
                                  ++ (codes " -D"
                                      ++ (join_with (codes " -D") test.macros
                                          ++ (codes ";"
                                              ++ (plugin.dut_exe
                                                  ++ (codes " --isa="
                                                      ++ (isa
                                                          ++ (codes " +signature="
                                                            ++ (join_path test.entry_dir
                                                            (but_last name ++ codes ".signature")
                                                            ++ (codes " +signature-granularity=4 "
                                                            ++ (elf_name with_cgf
                                                            ++ codes ";")))))))))))))))))

  abbrev compiler_pieces : List Piece
  compiler_pieces =
      said plugin.toolchain_prefix
      ∷ said (codes "gcc -march=")
      ∷ field 0
      ∷ said (codes " -static -mcmodel=medany -fvisibility=hidden -nostdlib -nostartfiles -T ")
      ∷ said plugin.pluginpath
      ∷ said (codes "/env/link.ld -I ")
      ∷ said plugin.pluginpath
      ∷ said (codes "/env/ -I ")
      ∷ said archtest_env
      ∷ said (codes " -mabi=ilp32 ")
      ∷ []

  format-compiler :
      (test : Entry)
      → IsPlain plugin.toolchain_prefix
      → IsPlain plugin.pluginpath
      → IsPlain archtest_env
      → format
          (spike_with plugin work_dir archtest_env plugin.toolchain_prefix).compile_cmd
          (map lower test.isa ∷ [])
        ≡ ok (compiler_text test)
  format-compiler test p q r =
      let flags : Text =
        codes " -static -mcmodel=medany -fvisibility=hidden -nostdlib -nostartfiles -T " in
      format_lem (map lower test.isa ∷ []) compiler_pieces (
        p,
        (
          IsPlain-of_all (codes "gcc -march=") refl,
          (
            (omega arith, refl),
            (
              IsPlain-of_all flags refl,
              (
                q,
                (
                  IsPlain-of_all (codes "/env/link.ld -I ") refl,
                  (
                    q,
                    (
                      IsPlain-of_all (codes "/env/ -I ") refl,
                      (r, (IsPlain-of_all (codes " -mabi=ilp32 ") refl, tt)),
                    ),
                  ),
                ),
              ),
            ),
          ),
        ),
      )

  spike_target-text :
      (test : Entry)
      → IsPlain plugin.toolchain_prefix
      → IsPlain plugin.pluginpath
      → IsPlain archtest_env
      → spike_target name isa
          (spike_with plugin work_dir archtest_env plugin.toolchain_prefix)
          with_cgf
          test
        ≡ ok (target_text test)
  unfolding spike_target target_text
  spike_target-text test p q r =
      ap (λ (c : Result FormatError Text). targeted c flags) (format-compiler test p q r)
      ∙ ap (targeted (ok (compiler_text test))) (format-flags isa sig_file (elf_name with_cgf))
    where
      sig_file : Text
      sig_file = join_path test.entry_dir (but_last name ++ codes ".signature")

      flags : Result FormatError Text
      flags =
          format (codes " --isa={0} +signature={1} +signature-granularity=4 {2};")
            (isa ∷ sig_file ∷ elf_name with_cgf ∷ [])

      joined : Text → Text → Text
      joined compiler spike =
          codes "@cd "
          ++ (test.entry_dir
              ++ (codes ";"
                  ++ (compiler
                      ++ (codes " "
                          ++ (test.test_path
                              ++ (codes " -o "
                                  ++ (elf_name with_cgf
                                      ++ (codes " -D"
                                          ++ (join_with (codes " -D") test.macros
                                              ++ (codes ";" ++ (plugin.dut_exe ++ spike)))))))))))

      targeted : Result FormatError Text → Result FormatError Text → Result Stop Text
      targeted compiled flags = elim compiled [
        | err e ↦ err format_error
        | ok compiler ↦ elim flags [
          | err e ↦ err format_error
          | ok spike ↦ ok (joined compiler spike)
        ]
      ]

  add_targets-text :
      (tests : List Entry) (made : Make)
      → IsPlain plugin.toolchain_prefix
      → IsPlain plugin.pluginpath
      → IsPlain archtest_env
      → add_targets name isa
          (spike_with plugin work_dir archtest_env plugin.toolchain_prefix)
          with_cgf
          tests
          made
        ≡ ok (record made { targets = made.targets ++ map target_text tests })
  unfolding add_targets
  add_targets-text [] made p q r =
      ap (λ (ts : List Text). ok (record made { targets = ts })) (sym (append-nil made.targets))
  add_targets-text (test ∷ tests) made p q r =
      rw (add_targets, spike_target-text test p q r)
        (add_targets-text tests (record made { targets = made.targets ++ target_text test ∷ [] }) p
            q r
          ∙ ap (λ (ts : List Text). ok (record made { targets = ts }))
              (append_assoc made.targets (target_text test ∷ []) (map target_text tests)))

  -- Where the prefix of the tools and the two paths have no brace, runTests hands make one target for
  -- each test, in the order of the list: into the test's directory, the compiler, and Spike with the
  -- architecture that build made out and the test's own signature file.
  pub prepare_tests-targets :
      (tests : List Entry)
      → IsPlain plugin.toolchain_prefix
      → IsPlain plugin.pluginpath
      → IsPlain archtest_env
      → prepare_tests name isa
          (spike_with plugin work_dir archtest_env plugin.toolchain_prefix)
          with_cgf
          tests
        ≡ ok (record {
          makefile_path = join_path work_dir (codes "Makefile." ++ but_last name);
          make_command = plugin.make ++ (codes " -j" ++ plugin.num_jobs);
          targets = map target_text tests;
        })
  unfolding prepare_tests
  prepare_tests-targets tests p q r = add_targets-text tests _ p q r
