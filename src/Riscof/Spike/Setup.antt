-- ===== src/Riscof/Spike/Setup.antt =====
-- The tool chain that build of riscof_spike.py settles on.
use sisrv_platform.Prelude.{
  ℕ, ◌≡◌, refl, ◌∙◌, ap, inl, inr, Bool, false, not, Option, none, some, List, [], ◌∷◌, ◌++◌,
  append_assoc, Text, codes, Result, ok, err, starts_with, drop-append, length, All, ◌==◌,
  if◌then◌else◌, Bool-cases, arith,
}
use sisrv_platform.Riscof.Format.{find}
use sisrv_platform.Riscof.Sisrv.Toolchain.{first_installed, first_fallback_lem}
use sisrv_platform.Riscof.Machine.{Stop, system_exit}
use sisrv_platform.Riscof.Sisrv.{fallbacks}
use sisrv_platform.Riscof.Spike.{
  SpikePlugin, SpikeSession, spike_tail, initialise_spike, exchange_prefix, with_fallback,
  resolve_toolchain, spike_isa, build_spike,
}

abbrev NoSpace : Text → Type 0
NoSpace = All (λ c. (c == b' ') ≡ false)

-- The marker begins in no text without a space in front of it.
marker_later :
    (c : ℕ) (s t : Text)
    → NoSpace (c ∷ s)
    → starts_with (c ∷ (s ++ (codes "gcc -march=" ++ t))) (codes "gcc -march=") ≡ false
marker_later c [] t (p, _) = ground arith
marker_later c (d ∷ []) t (p, (q, _)) = ground arith
marker_later c (d ∷ e ∷ []) t (p, (q, (r, _))) = ground arith
marker_later c (d ∷ e ∷ f ∷ s) t (p, (q, (r, (u, _)))) = ground arith

find-marker :
    (s t : Text)
    → NoSpace s
    → find (s ++ (codes "gcc -march=" ++ t)) (codes "gcc -march=") ≡ some (length s)
unfolding find
find-marker [] t _ = refl
find-marker (c ∷ s) t (p, more) = rw (marker_later c s t (p, more), find-marker s t more) refl

-- What stands behind the marker in the template, with the option that build adds.
abbrev behind_marker : (pluginpath archtest_env : Text) → Text
behind_marker pluginpath archtest_env =
    codes "{0} -static -mcmodel=medany -fvisibility=hidden -nostdlib -nostartfiles -T "
    ++ (pluginpath
        ++ (codes "/env/link.ld -I "
            ++ (pluginpath ++ (codes "/env/ -I " ++ (archtest_env ++ codes " -mabi=ilp32 ")))))

exchange_prefix-marker :
    (c : ℕ) (s fallback t : Text)
    → NoSpace (c ∷ s)
    → exchange_prefix fallback
        (c ∷ (s ++ (codes "gcc -march=" ++ t)))
        (find (c ∷ (s ++ (codes "gcc -march=" ++ t))) (codes "gcc -march="))
      ≡ fallback ++ (codes "gcc -march=" ++ t)
exchange_prefix-marker c s fallback t h = rw (find-marker (c ∷ s) t h) (
    ap (λ (u : Text). fallback ++ u)
      (drop-append s (codes "gcc -march=" ++ t) (length s) 0 (omega arith)))

module _ (plugin : SpikePlugin) (work_dir archtest_env : Text) where
  -- The session of the same plugin with another prefix, as build leaves it.
  abbrev pub spike_with : Text → SpikeSession
  spike_with prefix = record {
    plugin = record plugin { toolchain_prefix = prefix };
    work_dir = work_dir;
    compile_cmd = prefix ++ (codes "gcc -march=" ++ behind_marker plugin.pluginpath archtest_env);
  }

  -- What build promises: the first prefix that has a compiler, from the configured one on.
  unfoldable pub spike_result : (Text → Bool) → List ℕ → Text → Result Stop (Text × SpikeSession)
  spike_result which supported_xlen isa =
      elim (first_installed which (plugin.toolchain_prefix ∷ fallbacks)) [
        | none ↦ err (system_exit 1)
        | some prefix ↦
            if which plugin.dut_exe
            then ok (spike_isa supported_xlen isa, spike_with prefix)
            else err (system_exit 1)
      ]

  -- The session that build hands to _resolve_toolchain.
  abbrev with_abi : SpikeSession
  with_abi = record (initialise_spike plugin work_dir archtest_env) {
    compile_cmd =
        (initialise_spike plugin work_dir archtest_env).compile_cmd ++ codes " -mabi=ilp32 ";
  }

  with_abi-spike_with : with_abi ≡ spike_with plugin.toolchain_prefix
  unfolding initialise_spike spike_tail
  with_abi-spike_with =
      ap (λ (cmd : Text). record (spike_with plugin.toolchain_prefix) { compile_cmd = cmd })
        (simp (append_assoc))

  with_fallback-spike_with :
      (c : ℕ) (s fallback : Text)
      → NoSpace (c ∷ s)
      → plugin.toolchain_prefix ≡ c ∷ s
      → with_fallback (spike_with plugin.toolchain_prefix) fallback ≡ spike_with fallback
  with_fallback-spike_with c s fallback h set =
      ap (λ (cmd : Text). record (spike_with fallback) { compile_cmd = cmd })
        (rw set
          (exchange_prefix-marker c s fallback (behind_marker plugin.pluginpath archtest_env) h))

  -- Where the configured prefix is not empty and has no space, Spike's build leaves the compiler's
  -- command with the first of the configured and the two fallback prefixes whose compiler is found, and
  -- the letters of the architecture; it exits with 1 where there is none, or where Spike is not found.
  pub build_spike-picks_first :
      (which : Text → Bool) (supported_xlen : List ℕ) (isa : Text) (c : ℕ) (s : Text)
      → All (λ d. (d == b' ') ≡ false) (c ∷ s)
      → plugin.toolchain_prefix ≡ c ∷ s
      → build_spike which supported_xlen isa (initialise_spike plugin work_dir archtest_env)
        ≡ spike_result which supported_xlen isa
  unfolding build_spike resolve_toolchain spike_result
  build_spike-picks_first which supported_xlen isa c s h set =
      ap (λ (self : SpikeSession). finish_if (resolve_toolchain which self)) with_abi-spike_with
      ∙ elim (Bool-cases (which (plugin.toolchain_prefix ++ codes "gcc"))) [
        | inl here ↦ rw (resolve_toolchain, spike_result, here) (found plugin.toolchain_prefix)
        | inr gone ↦
            rw (resolve_toolchain, spike_result, first_fallback_lem which fallbacks, gone)
              (searched (first_installed which fallbacks))
      ]
    where
      finish : SpikeSession → Result Stop (Text × SpikeSession)
      finish self =
          if not (which self.plugin.dut_exe)
          then err (system_exit 1)
          else ok (spike_isa supported_xlen isa, self)

      finish_if : Result Stop SpikeSession → Result Stop (Text × SpikeSession)
      finish_if (err e) = err e
      finish_if (ok self) = finish self

      promised : Option Text → Result Stop (Text × SpikeSession)
      promised none = err (system_exit 1)
      promised (some prefix) =
          if which plugin.dut_exe
          then ok (spike_isa supported_xlen isa, spike_with prefix)
          else err (system_exit 1)

      chosen : Option Text → Result Stop SpikeSession
      chosen none = err (system_exit 1)
      chosen (some fallback) = ok (with_fallback (spike_with plugin.toolchain_prefix) fallback)

      found : (prefix : Text) → finish (spike_with prefix) ≡ promised (some prefix)
      found prefix = elim (Bool-cases (which plugin.dut_exe)) [
        | inl here ↦ rw here refl
        | inr gone ↦ rw gone refl
      ]

      searched : (o : Option Text) → finish_if (chosen o) ≡ promised o
      searched none = refl
      searched (some fallback) = rw (with_fallback-spike_with c s fallback h set) (found fallback)
