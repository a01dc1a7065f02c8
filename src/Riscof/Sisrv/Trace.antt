-- ===== src/Riscof/Sisrv/Trace.antt =====
-- The runs of runTests of riscof_sisrv.py: which commands are run, in which order, and what ends them.
use sisrv_platform.Prelude.{
  ℤ, format_int, join_with, take, length, ◌-◌, after_last, ◌≡◌, Option, none, some, List, [], ◌∷◌,
  ◌++◌, Text, codes, Result, ok, err,
}
use sisrv_platform.Riscof.Format.{replace}
use sisrv_platform.Riscof.Paths.{join_path}
use sisrv_platform.Riscof.Machine.{Stop, system_exit, Command, History, Nm}
use sisrv_platform.Riscof.Sisrv.{Session}
use sisrv_platform.Riscof.Sisrv.Run.{Entry, symbol_addr, compile_command}

-- The file that a test is compiled to.
abbrev elf_file : Entry → Text
elf_file test =
    join_path test.entry_dir
      (replace (codes ".S") [] (after_last b'/' test.test_path []) ++ codes ".elf")

module _ (python name : Text) (self : Session) (nm : Nm) where
  -- The three commands of a test, in its own directory, word by word but for the compiler's.
  abbrev pub compiled : Entry → Text → Command
  compiled test line = record { line = line; cwd = test.entry_dir }

  abbrev pub converted : Entry → Command
  converted test = record {
    line = join_with (codes " ") (
        python
        ∷ self.plugin.elf2sisrv
        ∷ elf_file test
        ∷ join_path test.entry_dir (codes "rom.hex")
        ∷ join_path test.entry_dir (codes "ram.hex")
        ∷ codes "--toolchain-prefix"
        ∷ self.plugin.toolchain_prefix
        ∷ []);
    cwd = test.entry_dir;
  }

  abbrev pub simulated : Entry → ℤ → ℤ → Command
  simulated test begin end = record {
    line = join_with (codes " ") (
        self.plugin.dut_exe
        ∷ codes "--rom"
        ∷ codes "rom.hex"
        ∷ codes "--ram"
        ∷ codes "ram.hex"
        ∷ codes "--signature-start"
        ∷ format_int begin
        ∷ codes "--signature-end"
        ∷ format_int end
        ∷ codes "--signature-out"
        ∷ join_path test.entry_dir (take (length name - 1) name ++ codes ".signature")
        ∷ codes "--timeout-cycles"
        ∷ self.plugin.timeout_cycles
        ∷ []);
    cwd = test.entry_dir;
  }

  -- The two addresses, or the exception of the first label that has none.
  abbrev pub addresses : Result Stop (Option ℤ) → Result Stop (Option ℤ) → Result Stop (ℤ × ℤ)
  addresses (err e) end = err e
  addresses (ok begin) (err e) = err e
  addresses (ok none) (ok end) = err (system_exit 1)
  addresses (ok (some begin)) (ok none) = err (system_exit 1)
  addresses (ok (some begin)) (ok (some end)) = ok (begin, end)

  -- What nm tells of the labels of a test that has been compiled and converted.
  abbrev pub labels : Entry → Text → History → Result Stop (ℤ × ℤ)
  labels test line h =
      let told =
        nm ((self.plugin.toolchain_prefix ++ codes "nm") ∷ codes "-g" ∷ elf_file test ∷ [])
          (h ++ compiled test line ∷ converted test ∷ []) in
      addresses (symbol_addr told (codes "begin_signature"))
        (symbol_addr told (codes "end_signature"))

  -- What runTests may do on the target from a history on: the tests that are left, the outcome, and
  -- the commands that are run for it.
  pub data Runs : History → List Entry → Result Stop (Unit {0}) → List Command → Type 0 where
    finished : {h : History} → Runs h [] (ok tt) []
    bad_template :
        {h : History} {test : Entry} {tests : List Entry} (e : Stop)
        → compile_command python name self test ≡ err e
        → Runs h (test ∷ tests) (err e) []
    no_labels :
        {h : History} {test : Entry} {tests : List Entry} (line : Text) (e : Stop)
        → compile_command python name self test ≡ ok line
        → labels test line h ≡ err e
        → Runs h (test ∷ tests) (err e) (compiled test line ∷ converted test ∷ [])
    tested :
        {h : History} {test : Entry} {tests : List Entry} (line : Text) (begin end : ℤ)
        {r : Result Stop (Unit {0})} {commands : List Command}
        → compile_command python name self test ≡ ok line
        → labels test line h ≡ ok (begin, end)
        → Runs
            (h ++ compiled test line ∷ converted test ∷ simulated test begin end ∷ [])
            tests
            r
            commands
        → Runs h
            (test ∷ tests)
            r
            (compiled test line ∷ converted test ∷ simulated test begin end ∷ commands)
