-- ===== src/Riscof/Sisrv/Run.antt =====
-- _symbol_addr and runTests of verification/riscof/plugins/sisrv/riscof_sisrv.py.
use sisrv_platform.Prelude.{
  ℤ, is_zero, parse_int_16, words, join_with, not, Option, none, some, List, [], ◌∷◌, ◌++◌, map,
  Text, codes, Result, ok, err, if◌then◌else◌, eq_text, take, length, ◌-◌, lower, after_last,
  split_lines, format_int,
}
use sisrv_platform.Riscof.Format.{replace, format}
use sisrv_platform.Riscof.Paths.{join_path}
use sisrv_platform.Riscof.Machine.{
  Stop, system_exit, value_error, format_error, Action, ◌>>=◌, ◌>>◌, pure, raise, lift, shell,
  Output, Nm,
}
use sisrv_platform.Riscof.Sisrv.{Session}

-- int(s, 16)
abbrev pub int_16 : Text → Result Stop ℤ
int_16 s = elim (parse_int_16 s) [ none ↦ err value_error | some n ↦ ok n ]

-- The first and the third of at least three words.
abbrev pub symbol_line : List Text → Option (Text × Text)
symbol_line (address ∷ type ∷ symbol ∷ more) = some (address, symbol)
symbol_line _ = none

-- The loop over the lines of nm.
unfoldable pub find_symbol : Text → List Text → Result Stop (Option ℤ)
find_symbol name [] = ok none
find_symbol name (line ∷ lines) =
    let later = find_symbol name lines in
    elim (symbol_line (words line)) [
      | none ↦ later
      | some (address, symbol) ↦
          if eq_text symbol name
          then elim (int_16 address) [ err e ↦ err e | ok n ↦ ok (some n) ]
          else later
    ]

unfoldable pub symbol_addr : Output → Text → Result Stop (Option ℤ)
symbol_addr proc name =
    if not (is_zero proc.returncode) then ok none else find_symbol name (split_lines proc.stdout)

-- A test list's entry, as RISCOF hands it over.
pub record Entry : Type 0 where
  pub test_path : Text
  pub entry_dir : Text
  pub isa : Text
  pub macros : List Text

-- os.path.basename(test).replace(".S", "")
abbrev pub base_of : Entry → Text
base_of test = replace (codes ".S") [] (after_last b'/' test.test_path [])

abbrev pub elf_of : Entry → Text
elf_of test = join_path test.entry_dir (base_of test ++ codes ".elf")

-- " -D" + " -D".join(macros)
abbrev pub macro_flags : Entry → Text
macro_flags test = codes " -D" ++ join_with (codes " -D") test.macros

abbrev pub compile_args : Entry → List Text
compile_args test = map lower test.isa ∷ test.test_path ∷ elf_of test ∷ macro_flags test ∷ []

-- s[:-1]
abbrev pub but_last : Text → Text
but_last s = take (length s - 1) s

module _ (python name : Text) (self : Session) where
  -- The signature file; the name is the one that RISCOF gives the plugin.
  abbrev pub signature_of : Entry → Text
  signature_of test = join_path test.entry_dir (but_last name ++ codes ".signature")

  unfoldable pub compile_command : Entry → Result Stop Text
  compile_command test = elim (format self.compile_cmd (compile_args test)) [
    | err e ↦ err format_error
    | ok line ↦ ok line
  ]

  unfoldable pub convert_command : Entry → Text
  convert_command test =
      python
      ++ (codes " "
          ++ (self.plugin.elf2sisrv
              ++ (codes " "
                  ++ (elf_of test
                      ++ (codes " "
                          ++ (join_path test.entry_dir (codes "rom.hex")
                              ++ (codes " "
                                  ++ (join_path test.entry_dir (codes "ram.hex")
                                      ++ (codes " --toolchain-prefix "
                                          ++ self.plugin.toolchain_prefix)))))))))

  unfoldable pub simulate_command : Entry → (sig_begin sig_end : ℤ) → Text
  simulate_command test sig_begin sig_end =
      self.plugin.dut_exe
      ++ (codes " --rom rom.hex --ram ram.hex --signature-start "
          ++ (format_int sig_begin
              ++ (codes " --signature-end "
                  ++ (format_int sig_end
                      ++ (codes " --signature-out "
                          ++ (signature_of test
                              ++ (codes " --timeout-cycles " ++ self.plugin.timeout_cycles)))))))

  -- [nm, "-g", elf]
  abbrev pub nm_args : Entry → List Text
  nm_args test = (self.plugin.toolchain_prefix ++ codes "nm") ∷ codes "-g" ∷ elf_of test ∷ []

  -- One call of _symbol_addr.
  abbrev pub read_symbol : Nm → Entry → Text → Action (Option ℤ)
  read_symbol nm test symbol h = (symbol_addr (nm (nm_args test) h) symbol, h)

  -- The test of the two labels.
  abbrev pub both_labels : Option ℤ → Option ℤ → Action (ℤ × ℤ)
  both_labels none end = raise (system_exit 1)
  both_labels (some begin) none = raise (system_exit 1)
  both_labels (some begin) (some end) = pure (begin, end)

  -- What a round does with a compiled test on the target.
  unfoldable pub run_on_target : Nm → Entry → Action (Unit {0})
  run_on_target nm test = do
    shell (convert_command test) test.entry_dir
    sig_begin ← read_symbol nm test (codes "begin_signature")
    sig_end ← read_symbol nm test (codes "end_signature")
    (begin, end) ← both_labels sig_begin sig_end
    shell (simulate_command test begin end) test.entry_dir

  unfoldable pub run_test : Nm → Entry → Action (Unit {0})
  run_test nm test = do
    compile_cmd ← lift (compile_command test)
    shell compile_cmd test.entry_dir
    if not self.plugin.target_run then pure tt else run_on_target nm test

  unfoldable pub run_each : Nm → List Entry → Action (Unit {0})
  run_each nm [] = pure tt
  run_each nm (test ∷ tests) = do run_test nm test; run_each nm tests

  -- runTests
  unfoldable pub run_tests : Nm → List Entry → Action (Unit {0})
  run_tests nm tests = do
    run_each nm tests
    if not self.plugin.target_run then raise (system_exit 0) else pure tt
