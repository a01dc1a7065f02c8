-- ===== src/Riscof/Sisrv/Outcome.antt =====
-- How runTests of riscof_sisrv.py ends: on the target, and without it.
use sisrv_platform.Prelude.{
  ℤ, ◌≡◌, refl, ◌∙◌, ap, sym, subst, true, false, List, [], ◌∷◌, ◌++◌, append_assoc, append-nil,
  Text, Result, ok, err, map, All,
}
use sisrv_platform.Riscof.Machine.{Stop, system_exit, Command, History, Nm}
use sisrv_platform.Riscof.Sisrv.{Session}
use sisrv_platform.Riscof.Sisrv.Run.{Entry, compile_command, run_each, run_tests}
use sisrv_platform.Riscof.Sisrv.Trace.{
  compiled, converted, simulated, labels, Runs, finished, bad_template, no_labels, tested,
}
use sisrv_platform.Riscof.Sisrv.Round.{
  run_test-bad, run_each-next, run_each-stops, run_each-goes_on, run_tests-on, run_test-off,
  run_tests-off,
}

module _ (python name : Text) (self : Session) (nm : Nm) where
  -- An outcome that the relation explains.
  abbrev pub Explains : History → List Entry → Result Stop (Unit {0}) × History → Type 0
  Explains h tests out =
      (commands : List Command) × Runs python name self nm h tests out.0 commands
      × (out.1 ≡ h ++ commands)

  Explains-test :
      (test : Entry) (tests : List Entry) (h : History) (line : Text)
      → self.plugin.target_run ≡ true
      → compile_command python name self test ≡ ok line
      → ((h : History) → Explains h tests (run_each python name self nm tests h))
      → Explains h (test ∷ tests) (run_each python name self nm (test ∷ tests) h)
  Explains-test test tests h line on compiles later =
      labelled (labels python name self nm test line h) refl
    where
      labelled :
          (l : Result Stop (ℤ × ℤ))
          → labels python name self nm test line h ≡ l
          → Explains h (test ∷ tests) (run_each python name self nm (test ∷ tests) h)
      labelled (err e) missing =
          subst (Explains h (test ∷ tests))
            (sym (run_each-stops python name self nm test tests line h e on compiles missing))
            (_, no_labels line e compiles missing, refl)
      labelled (ok (begin, end)) found =
          let run : List Command =
            compiled python name self nm test line
            ∷ converted python name self nm test
            ∷ simulated python name self nm test begin end
            ∷ [] in
          let (commands, runs, written) = later (h ++ run) in
          subst (Explains h (test ∷ tests))
            (sym
              (run_each-goes_on python name self nm test tests line h begin end on compiles found))
            (
              run ++ commands,
              tested line begin end compiles found runs,
              written ∙ append_assoc h run commands,
            )

  run_each-Explains :
      (tests : List Entry) (h : History)
      → self.plugin.target_run ≡ true
      → Explains h tests (run_each python name self nm tests h)
  run_each-Explains [] h on = unfold run_each in ([], finished, sym (append-nil h))
  run_each-Explains (test ∷ tests) h on =
      compiled_to (compile_command python name self test) refl (λ h'. run_each-Explains tests h' on)
    where
      compiled_to :
          (c : Result Stop Text)
          → compile_command python name self test ≡ c
          → ((h : History) → Explains h tests (run_each python name self nm tests h))
          → Explains h (test ∷ tests) (run_each python name self nm (test ∷ tests) h)
      compiled_to (err e) fails _ =
          subst (Explains h (test ∷ tests))
            (sym (
              run_each-next python name self nm test tests h
                (run_test-bad python name self nm test e h fails)))
            ([], bad_template e fails, sym (append-nil h))
      compiled_to (ok line) compiles later = Explains-test test tests h line on compiles later

  -- On the target, whatever nm answers in ASCII, runTests ends with an outcome of the relation: test
  -- after test is compiled, converted and, with the two addresses that nm then gives, simulated, up to
  -- the first test whose template or labels fail, which is not simulated and ends the run.
  pub run_tests-Runs :
      (tests : List Entry) (h : History)
      → self.plugin.target_run ≡ true
      → Explains h tests (run_tests python name self nm tests h)
  run_tests-Runs tests h on =
      subst (Explains h tests) (sym (run_tests-on python name self nm tests h on))
        (run_each-Explains tests h on)

  -- The three commands of a test.
  abbrev pub commands_of : (Entry → Text) → (Entry → ℤ × ℤ) → List Entry → List Command
  commands_of line addresses [] = []
  commands_of line addresses (test ∷ tests) =
      compiled python name self nm test (line test)
      ∷ converted python name self nm test
      ∷ simulated python name self nm test (addresses test).0 (addresses test).1
      ∷ commands_of line addresses tests

  -- A test that can be run: it has a command for the compiler, and after its compilation and
  -- conversion nm gives the two addresses.
  abbrev pub IsRunnable : (Entry → Text) → (Entry → ℤ × ℤ) → Entry → Type 0
  IsRunnable line addresses test =
      (compile_command python name self test ≡ ok (line test))
      × ((h : History) → labels python name self nm test (line test) h ≡ ok (addresses test))

  run_each-runnable :
      (line : Entry → Text) (addresses : Entry → ℤ × ℤ) (tests later : List Entry) (h : History)
      → self.plugin.target_run ≡ true
      → All (IsRunnable line addresses) tests
      → run_each python name self nm (tests ++ later) h
        ≡ run_each python name self nm later (h ++ commands_of line addresses tests)
  run_each-runnable line addresses [] later h on _ = rw (append-nil h) refl
  run_each-runnable line addresses (test ∷ tests) later h on ((compiles, found), more) =
      let run : List Command = commands_of line addresses (test ∷ []) in
      run_each-goes_on python name self nm test (tests ++ later) (line test) h (addresses test).0
        (addresses test).1 on compiles (found h)
      ∙ run_each-runnable line addresses tests later (h ++ run) on more
      ∙ ap (run_each python name self nm later)
          (append_assoc h run (commands_of line addresses tests))

  -- On the target, where each test has a compiler's command and gets its two addresses from nm, runTests
  -- reaches its end: every test has been compiled, converted and simulated, in the order of the list,
  -- with its own addresses, and nothing else has been run.
  pub run_tests-completes :
      (line : Entry → Text) (addresses : Entry → ℤ × ℤ) (tests : List Entry) (h : History)
      → self.plugin.target_run ≡ true
      → All (IsRunnable line addresses) tests
      → run_tests python name self nm tests h ≡ (ok tt, h ++ commands_of line addresses tests)
  run_tests-completes line addresses tests h on all =
      run_tests-on python name self nm tests h on
      ∙ subst
          (λ (ts : List Entry).
            run_each python name self nm ts h
            ≡ run_each python name self nm [] (h ++ commands_of line addresses tests))
          (append-nil tests) (run_each-runnable line addresses tests [] h on all)
      ∙ unfold run_each in refl

  -- On the target, where nm gives no label of a test behind tests that can be run, runTests exits with
  -- 1: that test has been compiled and converted, it is not simulated, and no test behind it is begun.
  pub run_tests-missing_label :
      (line : Entry → Text) (addresses : Entry → ℤ × ℤ) (tests : List Entry) (test : Entry)
      (later : List Entry) (h : History)
      → self.plugin.target_run ≡ true
      → All (IsRunnable line addresses) tests
      → compile_command python name self test ≡ ok (line test)
      → labels python name self nm test (line test) (h ++ commands_of line addresses tests)
        ≡ err (system_exit 1)
      → run_tests python name self nm (tests ++ test ∷ later) h ≡ (
        err (system_exit 1),
        (h ++ commands_of line addresses tests)
            ++ compiled python name self nm test (line test)
              ∷ converted python name self nm test
              ∷ [],
      )
  run_tests-missing_label line addresses tests test later h on all compiles missing =
      run_tests-on python name self nm (tests ++ test ∷ later) h on
      ∙ run_each-runnable line addresses tests (test ∷ later) h on all
      ∙ run_each-stops python name self nm test later (line test)
          (h ++ commands_of line addresses tests) (system_exit 1) on compiles missing

  run_each-off :
      (line : Entry → Text) (tests : List Entry) (h : History)
      → self.plugin.target_run ≡ false
      → All (λ test. compile_command python name self test ≡ ok (line test)) tests
      → run_each python name self nm tests h
        ≡ (ok tt, h ++ map (λ test. compiled python name self nm test (line test)) tests)
  run_each-off line [] h off _ = unfold run_each in rw (append-nil h) refl
  run_each-off line (test ∷ tests) h off (compiles, more) =
      let first : List Command = compiled python name self nm test (line test) ∷ [] in
      run_each-next python name self nm test tests h
        (run_test-off python name self nm test (line test) h off compiles)
      ∙ run_each-off line tests (h ++ first) off more
      ∙ ap (λ (g : History). (ok tt, g))
          (append_assoc h first (map (λ test. compiled python name self nm test (line test)) tests))

  -- Without the target, where each test has a compiler's command, runTests compiles the tests in order,
  -- runs nothing else, and exits with 0.
  pub run_tests-compiles_only :
      (line : Entry → Text) (tests : List Entry) (h : History)
      → self.plugin.target_run ≡ false
      → All (λ test. compile_command python name self test ≡ ok (line test)) tests
      → run_tests python name self nm tests h ≡ (
        err (system_exit 0),
        h ++ map (λ test. compiled python name self nm test (line test)) tests,
      )
  run_tests-compiles_only line tests h off all =
      run_tests-off python name self nm tests h _ off (run_each-off line tests h off all)
