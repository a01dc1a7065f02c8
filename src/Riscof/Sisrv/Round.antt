-- ===== src/Riscof/Sisrv/Round.antt =====
-- The rounds of runTests of riscof_sisrv.py, each from its history.
use sisrv_platform.Prelude.{
  ℤ, join_with, ◌≡◌, refl, ◌∙◌, ap, Bool, true, false, not, Option, none, some, List, [], ◌∷◌, ◌++◌,
  append_assoc, Text, codes, Result, ok, err, if◌then◌else◌,
}
use sisrv_platform.Riscof.Machine.{
  Stop, system_exit, History, Action, ◌>>=◌, pure, raise, lift, shell, Nm,
}
use sisrv_platform.Riscof.Sisrv.{Session}
use sisrv_platform.Riscof.Sisrv.Run.{
  Entry, symbol_addr, nm_args, compile_command, convert_command, simulate_command, both_labels,
  run_on_target, run_test, run_each, run_tests,
}
use sisrv_platform.Riscof.Sisrv.Trace.{compiled, converted, simulated, labels, addresses}

module _ (python name : Text) (self : Session) (nm : Nm) where
  -- How a round on the target ends.
  abbrev pub ended : Entry → History → Result Stop (ℤ × ℤ) → Result Stop (Unit {0}) × History
  ended test h (err e) = (err e, h)
  ended test h (ok (begin, end)) = (ok tt, h ++ simulated python name self nm test begin end ∷ [])

  run_on_target_lem :
      (test : Entry) (line : Text) (h : History)
      → run_on_target python name self nm test (h ++ compiled python name self nm test line ∷ [])
        ≡ ended test
            (h ++ compiled python name self nm test line ∷ converted python name self nm test ∷ [])
            (labels python name self nm test line h)
  unfolding run_on_target convert_command simulate_command join_with
  run_on_target_lem test line h =
      ap rest (
        append_assoc h (compiled python name self nm test line ∷ [])
          (converted python name self nm test ∷ []))
      ∙ looked
          (label
            (h ++ compiled python name self nm test line ∷ converted python name self nm test ∷ [])
            (codes "begin_signature"))
          (label
            (h ++ compiled python name self nm test line ∷ converted python name self nm test ∷ [])
            (codes "end_signature"))
          (h ++ compiled python name self nm test line ∷ converted python name self nm test ∷ [])
    where
      label : History → Text → Result Stop (Option ℤ)
      label h symbol = symbol_addr (nm (nm_args python name self test) h) symbol

      simulate : ℤ × ℤ → Action (Unit {0})
      simulate (begin, end) =
          shell (simulate_command python name self test begin end) test.entry_dir

      look : Result Stop (Option ℤ) → Result Stop (Option ℤ) → Action (Unit {0})
      look begin end =
          lift begin >>= λ b. lift end >>= λ e. both_labels python name self b e >>= simulate

      rest : History → Result Stop (Unit {0}) × History
      rest h = look (label h (codes "begin_signature")) (label h (codes "end_signature")) h

      looked :
          (begin end : Result Stop (Option ℤ)) (h : History)
          → look begin end h ≡ ended test h (addresses python name self nm begin end)
      looked (err e) end h = refl
      looked (ok none) (err e) h = refl
      looked (ok (some begin)) (err e) h = refl
      looked (ok none) (ok end) h = refl
      looked (ok (some begin)) (ok none) h = refl
      looked (ok (some begin)) (ok (some end)) h = refl

  target_on :
      (b : Bool) (skip run : Action (Unit {0})) (h : History)
      → b ≡ true
      → (if not b then skip else run) h ≡ run h
  target_on false skip run h on = cc
  target_on true skip run h on = refl

  target_off :
      (b : Bool) (skip run : Action (Unit {0})) (h : History)
      → b ≡ false
      → (if not b then skip else run) h ≡ skip h
  target_off true skip run h off = cc
  target_off false skip run h off = refl

  -- A round on the target, from the start.
  run_test_lem :
      (test : Entry) (line : Text) (h : History)
      → self.plugin.target_run ≡ true
      → compile_command python name self test ≡ ok line
      → run_test python name self nm test h
        ≡ ended test
            (h ++ compiled python name self nm test line ∷ converted python name self nm test ∷ [])
            (labels python name self nm test line h)
  unfolding run_test
  run_test_lem test line h on compiles =
      rw (run_test, compiles)
        (target_on self.plugin.target_run (pure tt) (run_on_target python name self nm test)
            (h ++ compiled python name self nm test line ∷ []) on
          ∙ run_on_target_lem test line h)

  pub run_test-bad :
      (test : Entry) (e : Stop) (h : History)
      → compile_command python name self test ≡ err e
      → run_test python name self nm test h ≡ (err e, h)
  unfolding run_test
  run_test-bad test e h fails = rw (run_test, fails) refl

  -- The tests behind one that has been run.
  abbrev pub next : List Entry → Result Stop (Unit {0}) × History → Result Stop (Unit {0}) × History
  next tests out = elim out.0 [
    | ok done ↦ run_each python name self nm tests out.1
    | err e ↦ (err e, out.1)
  ]

  pub run_each-next :
      (test : Entry) (tests : List Entry) (h : History) {out : Result Stop (Unit {0}) × History}
      → run_test python name self nm test h ≡ out
      → run_each python name self nm (test ∷ tests) h ≡ next tests out
  unfolding run_each
  run_each-next test tests h e = ap (next tests) e

  pub run_each-stops :
      (test : Entry) (tests : List Entry) (line : Text) (h : History) (e : Stop)
      → self.plugin.target_run ≡ true
      → compile_command python name self test ≡ ok line
      → labels python name self nm test line h ≡ err e
      → run_each python name self nm (test ∷ tests) h ≡ (
        err e,
        h ++ compiled python name self nm test line ∷ converted python name self nm test ∷ [],
      )
  run_each-stops test tests line h e on compiles missing = run_each-next test tests h (
      run_test_lem test line h on compiles
      ∙ ap
          (ended test
            (h ++ compiled python name self nm test line ∷ converted python name self nm test ∷ []))
          missing)

  pub run_each-goes_on :
      (test : Entry) (tests : List Entry) (line : Text) (h : History) (begin end : ℤ)
      → self.plugin.target_run ≡ true
      → compile_command python name self test ≡ ok line
      → labels python name self nm test line h ≡ ok (begin, end)
      → run_each python name self nm (test ∷ tests) h
        ≡ run_each python name self nm tests (
            h
            ++ compiled python name self nm test line
              ∷ converted python name self nm test
              ∷ simulated python name self nm test begin end
              ∷ [])
  run_each-goes_on test tests line h begin end on compiles found =
      run_each-next test tests h (
        run_test_lem test line h on compiles
        ∙ ap
            (ended test (
              h
              ++ compiled python name self nm test line ∷ converted python name self nm test ∷ []))
            found)
      ∙ ap (run_each python name self nm tests) (
          append_assoc h
            (compiled python name self nm test line ∷ converted python name self nm test ∷ [])
            (simulated python name self nm test begin end ∷ []))

  -- What runTests does behind its loop.
  abbrev over : Result Stop (Unit {0}) × History → Result Stop (Unit {0}) × History
  over out = elim out.0 [
    | ok done ↦ (if not self.plugin.target_run then raise (system_exit 0) else pure tt) out.1
    | err e ↦ (err e, out.1)
  ]

  pub run_tests-on :
      (tests : List Entry) (h : History)
      → self.plugin.target_run ≡ true
      → run_tests python name self nm tests h ≡ run_each python name self nm tests h
  unfolding run_tests
  run_tests-on tests h on =
      let out : Result Stop (Unit {0}) × History = run_each python name self nm tests h in
      over-on out.0 out.1
    where
      over-on : (r : Result Stop (Unit {0})) (h : History) → over (r, h) ≡ (r, h)
      over-on (ok done) h = target_on self.plugin.target_run (raise (system_exit 0)) (pure tt) h on
      over-on (err e) h = refl

  pub run_test-off :
      (test : Entry) (line : Text) (h : History)
      → self.plugin.target_run ≡ false
      → compile_command python name self test ≡ ok line
      → run_test python name self nm test h
        ≡ (ok tt, h ++ compiled python name self nm test line ∷ [])
  unfolding run_test
  run_test-off test line h off compiles =
      rw (run_test, compiles)
        (target_off self.plugin.target_run (pure tt) (run_on_target python name self nm test)
          (h ++ compiled python name self nm test line ∷ []) off)

  pub run_tests-off :
      (tests : List Entry) (h h' : History)
      → self.plugin.target_run ≡ false
      → run_each python name self nm tests h ≡ (ok tt, h')
      → run_tests python name self nm tests h ≡ (err (system_exit 0), h')
  unfolding run_tests
  run_tests-off tests h h' off e =
      ap over e ∙ (target_off self.plugin.target_run (raise (system_exit 0)) (pure tt) h' off)
