-- ===== src/Riscof/Sisrv/Whole.antt =====
-- initialise, build and runTests of riscof_sisrv.py, one after the other.
use sisrv_platform.Prelude.{
  ℤ, ℕ, ◌≡◌, refl, ◌∙◌, ap, sym, subst, inl, inr, Bool, true, false, ◌&&◌, Option, none, some, List,
  [], ◌∷◌, ◌++◌, Text, codes, Result, ok, err, contains, keep, All, Bool-cases,
}
use sisrv_platform.Riscof.Format.Laws.{IsPlain}
use sisrv_platform.Riscof.Format.Pieces.{IsPlain-of_all}
use sisrv_platform.Riscof.Machine.{Stop, system_exit, History, Nm}
use sisrv_platform.Riscof.Sisrv.{
  Plugin, Session, Installed, compile_tail, initialise, fallbacks, build,
}
use sisrv_platform.Riscof.Sisrv.Run.{Entry, run_tests}
use sisrv_platform.Riscof.Sisrv.Toolchain.{head, first_installed}
use sisrv_platform.Riscof.Sisrv.Setup.{session_with, build_result, with_files, build-picks_first}
use sisrv_platform.Riscof.Sisrv.Command.{compile_text, compile_command-text}
use sisrv_platform.Riscof.Sisrv.Trace.{labels}
use sisrv_platform.Riscof.Sisrv.Outcome.{IsRunnable, commands_of, run_tests-completes}

abbrev value_or : Text → Option Text → Text
value_or other none = other
value_or other (some value) = value

-- The session of a result, or another.
abbrev session_or : Session → Result Stop (Text × Session) → Session
session_or other (err e) = other
session_or other (ok (xlen, self)) = self

head-keep :
    (P : Text → Type 0) (test : Text → Bool) (prefixes : List Text) {prefix : Text}
    → All P prefixes
    → head (keep test prefixes) ≡ some prefix
    → P prefix
head-keep P test [] _ h = cc
head-keep P test (first ∷ prefixes) {prefix} (p, ps) h = elim (Bool-cases (test first)) [
  | inl here ↦
      let same : some first ≡ some prefix = rw here at h in subst P (ap (value_or first) same) p
  | inr gone ↦ head-keep P test prefixes ps (rw gone at h)
]

module _ (plugin : Plugin) (suite work_dir archtest_env : Text) where
  -- A session that build returns is that of an installed prefix.
  built :
      (installed : Installed) (supported_xlen : List ℕ) (xlen : Text) (self : Session)
      → build_result plugin suite work_dir archtest_env installed supported_xlen ≡ ok (xlen, self)
      → (prefix : Text) × (first_installed installed.which (plugin.toolchain_prefix ∷ fallbacks)
          ≡ some prefix)
        × (session_with plugin suite work_dir archtest_env prefix ≡ self)
  unfolding build_result
  built installed supported_xlen xlen self h =
      found (first_installed installed.which (plugin.toolchain_prefix ∷ fallbacks)) refl h
    where
      no_result : (e : Stop) → ◌≡◌ {A = Result Stop (Text × Session)} (err e) (ok (xlen, self)) → ⊥
      no_result e same = cc

      promised : Option Text → Result Stop (Text × Session)
      promised none = err (system_exit 1)
      promised (some prefix) =
          with_files plugin suite work_dir archtest_env installed supported_xlen prefix

      found :
          (o : Option Text)
          → first_installed installed.which (plugin.toolchain_prefix ∷ fallbacks) ≡ o
          → promised o ≡ ok (xlen, self)
          → (prefix : Text) × (first_installed installed.which (plugin.toolchain_prefix ∷ fallbacks)
              ≡ some prefix)
            × (session_with plugin suite work_dir archtest_env prefix ≡ self)
      found none _ e = cc
      found (some prefix) first e =
          let session : Session = session_with plugin suite work_dir archtest_env prefix in
          elim (Bool-cases
            (installed.is_file plugin.dut_exe && installed.is_file plugin.elf2sisrv)) [
              | inl both ↦ (prefix, first, ap (session_or session) (rw both at e))
              | inr gone ↦ absurd (no_result (system_exit 1) (rw gone at e))
            ]

  -- What the code promises of a session.
  abbrev Completes : Text → Text → Nm → (Entry → ℤ × ℤ) → List Entry → History → Session → Type 0
  Completes python name nm addresses tests h self =
      All
        (λ test.
          (g : History)
          → labels python name self nm test
              (compile_text self.plugin suite work_dir archtest_env test) g
            ≡ ok (addresses test))
        tests
      → run_tests python name self nm tests h ≡ (
        ok tt,
        h
            ++ commands_of python name self nm
                (compile_text self.plugin suite work_dir archtest_env) addresses tests,
      )

  session_with-Completes :
      (prefix : Text) (python name : Text) (nm : Nm) (addresses : Entry → ℤ × ℤ)
      (tests : List Entry) (h : History)
      → IsPlain prefix
      → IsPlain plugin.pluginpath
      → IsPlain archtest_env
      → plugin.target_run ≡ true
      → Completes python name nm addresses tests h
          (session_with plugin suite work_dir archtest_env prefix)
  unfolding initialise
  session_with-Completes prefix python name nm addresses tests h p q r on found =
      run_tests-completes python name session nm line addresses tests h on (runnable tests found)
    where
      chosen : Plugin
      chosen = record plugin { toolchain_prefix = prefix }

      session : Session
      session = session_with plugin suite work_dir archtest_env prefix

      line : Entry → Text
      line = compile_text chosen suite work_dir archtest_env

      runnable :
          (tests : List Entry)
          → All
              (λ test.
                (g : History)
                → labels python name session nm test (line test) g ≡ ok (addresses test))
              tests
          → All (IsRunnable python name session nm line addresses) tests
      runnable [] _ = tt
      runnable (test ∷ tests) (one, more) = (
        (compile_command-text chosen suite work_dir archtest_env python name test p q r, one),
        runnable tests more,
      )

  -- Where the configured prefix is not empty and stands nowhere else in the compiler's command, where
  -- that prefix and the two paths have no brace, and where nm gives the two addresses of each test after
  -- its compilation and conversion, a session that build returns runs every test on the target, in order
  -- and with the prefix that build has chosen, and nothing else.
  pub build-run_tests :
      (installed : Installed) (supported_xlen : List ℕ) (d : ℕ) (old : Text)
      → plugin.toolchain_prefix ≡ d ∷ old
      → contains (compile_tail plugin.pluginpath archtest_env) (d ∷ old) ≡ false
      → IsPlain plugin.toolchain_prefix
      → IsPlain plugin.pluginpath
      → IsPlain archtest_env
      → (xlen : Text) (self : Session)
      → build installed supported_xlen (initialise plugin suite work_dir archtest_env)
        ≡ ok (xlen, self)
      → plugin.target_run ≡ true
      → (python name : Text) (nm : Nm) (addresses : Entry → ℤ × ℤ) (tests : List Entry)
        (h : History)
      → All
          (λ test.
            (g : History)
            → labels python name self nm test
                (compile_text self.plugin suite work_dir archtest_env test)
                g
              ≡ ok (addresses test))
          tests
      → run_tests python name self nm tests h ≡ (
        ok tt,
        h
            ++ commands_of python name self nm
                (compile_text self.plugin suite work_dir archtest_env)
                addresses
                tests,
      )
  build-run_tests installed supported_xlen d old set absent p q r xlen self returned on python name
        nm addresses tests h found =
      let (prefix, first, same) = built installed supported_xlen xlen self (
        sym (
          build-picks_first plugin suite work_dir archtest_env installed supported_xlen d old set
            absent)
        ∙ returned) in
      let plain : IsPlain prefix =
        head-keep IsPlain (λ t. installed.which (t ++ codes "gcc"))
          (plugin.toolchain_prefix ∷ fallbacks)
          (
            p,
            (
              IsPlain-of_all (codes "riscv64-unknown-elf-") refl,
              (IsPlain-of_all (codes "riscv64-linux-gnu-") refl, tt),
            ),
          )
          first in
      subst (Completes python name nm addresses tests h) same
        (session_with-Completes prefix python name nm addresses tests h plain q r on) found
