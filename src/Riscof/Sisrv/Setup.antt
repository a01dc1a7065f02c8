-- ===== src/Riscof/Sisrv/Setup.antt =====
-- The tool chain that build of riscof_sisrv.py settles on.
use sisrv_platform.Prelude.{
  ℕ, ◌≡◌, refl, ap, inl, inr, false, not, ◌&&◌, Option, none, some, List, ◌∷◌, ◌++◌, Text, codes,
  Result, ok, err, contains, if◌then◌else◌, Bool-cases,
}
use sisrv_platform.Riscof.Format.{replace}
use sisrv_platform.Riscof.Format.Laws.{replace-front}
use sisrv_platform.Riscof.Sisrv.Toolchain.{first_installed, first_fallback_lem}
use sisrv_platform.Riscof.Machine.{Stop, system_exit}
use sisrv_platform.Riscof.Sisrv.{
  Plugin, Session, Installed, compile_tail, initialise, fallbacks, with_prefix, choose_toolchain,
  xlen_of, build,
}

module _ (plugin : Plugin) (suite work_dir archtest_env : Text) where
  -- The session of the same plugin with another prefix.
  abbrev pub session_with : Text → Session
  session_with prefix =
      initialise (record plugin { toolchain_prefix = prefix }) suite work_dir archtest_env

  abbrev pub with_files : Installed → List ℕ → Text → Result Stop (Text × Session)
  with_files installed supported_xlen prefix =
      if installed.is_file plugin.dut_exe && installed.is_file plugin.elf2sisrv
      then ok (xlen_of supported_xlen, session_with prefix)
      else err (system_exit 1)

  -- What build promises: the first prefix that has a compiler, from the configured one on.
  unfoldable pub build_result : Installed → List ℕ → Result Stop (Text × Session)
  build_result installed supported_xlen =
      elim (first_installed installed.which (plugin.toolchain_prefix ∷ fallbacks)) [
        | none ↦ err (system_exit 1)
        | some prefix ↦ with_files installed supported_xlen prefix
      ]

  with_prefix-initialise :
      (d : ℕ) (old prefix : Text)
      → plugin.toolchain_prefix ≡ d ∷ old
      → contains (compile_tail plugin.pluginpath archtest_env) (d ∷ old) ≡ false
      → with_prefix (initialise plugin suite work_dir archtest_env) prefix ≡ session_with prefix
  unfolding initialise
  with_prefix-initialise d old prefix set absent =
      let tail : Text = compile_tail plugin.pluginpath archtest_env in
      let exchanged : replace plugin.toolchain_prefix prefix (plugin.toolchain_prefix ++ tail)
          ≡ prefix ++ tail =
        rw set (replace-front d old prefix tail absent) in
      ap (λ (cmd : Text). record (session_with prefix) { compile_cmd = cmd }) exchanged

  -- Where the configured prefix is not empty and stands nowhere in the rest of the compiler's command,
  -- build leaves the session that initialise makes with the first of the configured and the two
  -- fallback prefixes whose compiler is found; it exits with 1 where there is none, or where the
  -- simulator or the converter is no file.
  pub build-picks_first :
      (installed : Installed) (supported_xlen : List ℕ) (d : ℕ) (old : Text)
      → plugin.toolchain_prefix ≡ d ∷ old
      → contains (compile_tail plugin.pluginpath archtest_env) (d ∷ old) ≡ false
      → build installed supported_xlen (initialise plugin suite work_dir archtest_env)
        ≡ build_result installed supported_xlen
  unfolding build build_result choose_toolchain initialise
  build-picks_first installed supported_xlen d old set absent =
      elim (Bool-cases (installed.which (plugin.toolchain_prefix ++ codes "gcc"))) [
        | inl here ↦
            rw (build, build_result, choose_toolchain, here) (files plugin.toolchain_prefix)
        | inr gone ↦
            rw
              (
                build,
                build_result,
                choose_toolchain,
                first_fallback_lem installed.which fallbacks,
                gone,
              )
              (searched (first_installed installed.which fallbacks))
      ]
    where
      finish : Session → Result Stop (Text × Session)
      finish self =
          if not (installed.is_file self.plugin.dut_exe)
          then err (system_exit 1)
          else if not (installed.is_file self.plugin.elf2sisrv)
          then err (system_exit 1)
          else ok (xlen_of supported_xlen, self)

      files :
          (prefix : Text)
          → finish (session_with prefix) ≡ with_files installed supported_xlen prefix
      files prefix = elim (Bool-cases (installed.is_file plugin.dut_exe)) [
        | inl here ↦ elim (Bool-cases (installed.is_file plugin.elf2sisrv)) [
          | inl too ↦ rw (here, too) refl
          | inr gone ↦ rw (here, gone) refl
        ]
        | inr gone ↦ rw gone refl
      ]

      chosen : Option Text → Result Stop Session
      chosen none = err (system_exit 1)
      chosen (some fallback) =
          ok (with_prefix (initialise plugin suite work_dir archtest_env) fallback)

      finish_if : Result Stop Session → Result Stop (Text × Session)
      finish_if (err e) = err e
      finish_if (ok self) = finish self

      promised : Option Text → Result Stop (Text × Session)
      promised none = err (system_exit 1)
      promised (some prefix) = with_files installed supported_xlen prefix

      searched : (found : Option Text) → finish_if (chosen found) ≡ promised found
      searched none = refl
      searched (some fallback) =
          rw (with_prefix-initialise d old fallback set absent) (files fallback)
