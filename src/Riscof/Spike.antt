-- ===== src/Riscof/Spike.antt =====
-- verification/riscof/plugins/spike/riscof_spike.py. The configuration, the environment and the
-- programs of the machine are parameters. A test becomes a target of a makefile; what make does with
-- the targets is RISCOF's.
pub mod Setup
pub mod Targets
use sisrv_platform.Prelude.{
  join_with, ℕ, zero, suc, Bool, true, false, not, Option, none, some, List, [], ◌∷◌, ◌++◌, map,
  Text, codes, Result, ok, err, ◌==◌, if◌then◌else◌, any, drop, lower, contains,
}
use sisrv_platform.Riscof.Format.{find, FormatError, format}
use sisrv_platform.Riscof.Paths.{join_path, abs_path}
use sisrv_platform.Riscof.Machine.{Stop, system_exit, format_error}
use sisrv_platform.Riscof.Sisrv.{
  Lookup, get_text, need_text, dir_or_dot, first_fallback, fallbacks, xlen_of,
}
use sisrv_platform.Riscof.Sisrv.Run.{Entry, but_last}

-- What __init__ sets.
pub record SpikePlugin : Type 0 where
  pub dut_exe : Text
  pub num_jobs : Text
  pub pluginpath : Text
  pub isa_spec : Text
  pub platform_spec : Text
  pub make : Text
  pub toolchain_prefix : Text

unfoldable pub spike_init :
    (cwd : Text)
    → (environ config : Lookup) → (ispec pspec : Text) → (config_dir : Option Text) → SpikePlugin
spike_init cwd environ config ispec pspec config_dir =
    let dir = dir_or_dot config_dir in
    record {
      dut_exe = join_path (get_text config (codes "PATH") []) (codes "spike");
      num_jobs = get_text config (codes "jobs") (codes "1");
      pluginpath =
          abs_path cwd
            (join_path dir (get_text config (codes "pluginpath") (codes "plugins/spike")));
      isa_spec = abs_path cwd (join_path dir ispec);
      platform_spec = abs_path cwd (join_path dir pspec);
      make = get_text config (codes "make") (codes "make");
      toolchain_prefix =
          get_text environ (codes "RISCOF_TOOLCHAIN_PREFIX")
            (get_text config (codes "toolchain_prefix") (codes "riscv64-unknown-elf-"));
    }

-- __init__
unfoldable pub init_spike :
    (cwd : Text)
    → (environ : Lookup) → Option Lookup
    → (config_dir : Option Text) → Result Stop SpikePlugin
init_spike cwd environ none config_dir = err (system_exit 1)
init_spike cwd environ (some config) config_dir = elim (need_text config (codes "ispec")) [
  | err e ↦ err e
  | ok ispec ↦ elim (need_text config (codes "pspec")) [
    | err e ↦ err e
    | ok pspec ↦ ok (spike_init cwd environ config ispec pspec config_dir)
  ]
]

-- What initialise adds.
pub record SpikeSession : Type 0 where
  pub plugin : SpikePlugin
  pub work_dir : Text
  pub compile_cmd : Text

-- The template behind the prefix of the tools.
unfoldable pub spike_tail : (pluginpath archtest_env : Text) → Text
spike_tail pluginpath archtest_env =
    codes "gcc -march={0} "
    ++ (codes "-static -mcmodel=medany -fvisibility=hidden -nostdlib -nostartfiles "
        ++ (codes "-T "
            ++ (pluginpath
                ++ (codes "/env/link.ld "
                    ++ (codes "-I "
                        ++ (pluginpath ++ (codes "/env/ " ++ (codes "-I " ++ archtest_env))))))))

unfoldable pub initialise_spike : SpikePlugin → (work_dir archtest_env : Text) → SpikeSession
initialise_spike plugin work_dir archtest_env = record {
  plugin = plugin;
  work_dir = work_dir;
  compile_cmd = plugin.toolchain_prefix ++ spike_tail plugin.pluginpath archtest_env;
}

-- What is put in front of the marker, where find gives more than 0.
abbrev pub exchange_prefix : Text → Text → Option ℕ → Text
exchange_prefix fallback compile_cmd none = compile_cmd
exchange_prefix fallback compile_cmd (some zero) = compile_cmd
exchange_prefix fallback compile_cmd (some (suc idx)) = fallback ++ drop (suc idx) compile_cmd

-- self.toolchain_prefix and self.compile_cmd with a fallback prefix
abbrev pub with_fallback : SpikeSession → Text → SpikeSession
with_fallback self fallback = record self {
  plugin = record self.plugin { toolchain_prefix = fallback };
  compile_cmd =
      exchange_prefix fallback self.compile_cmd (find self.compile_cmd (codes "gcc -march="));
}

unfoldable pub resolve_toolchain : (Text → Bool) → SpikeSession → Result Stop SpikeSession
resolve_toolchain which self =
    if which (self.plugin.toolchain_prefix ++ codes "gcc")
    then ok self
    else elim (first_fallback which fallbacks) [
      | none ↦ err (system_exit 1)
      | some fallback ↦ ok (with_fallback self fallback)
    ]

-- A letter of self.isa, where the specification has it.
abbrev pub isa_letter : (letter written isa : Text) → Text
isa_letter letter written isa = if contains isa letter then written else []

unfoldable pub spike_isa : (supported_xlen : List ℕ) → (isa : Text) → Text
spike_isa supported_xlen isa =
    ((codes "rv" ++ xlen_of supported_xlen) ++ isa_letter (codes "I") (codes "i") isa)
    ++ isa_letter (codes "M") (codes "m") isa
    ++ isa_letter (codes "C") (codes "c") isa

-- build: self.isa and the session
unfoldable pub build_spike :
    (which : Text → Bool)
    → (supported_xlen : List ℕ) → (isa : Text) → SpikeSession
    → Result Stop (Text × SpikeSession)
build_spike which supported_xlen isa self =
    elim (resolve_toolchain which
      (record self { compile_cmd = self.compile_cmd ++ codes " -mabi=ilp32 " })) [
        | err e ↦ err e
        | ok self' ↦
            if not (which self'.plugin.dut_exe)
            then err (system_exit 1)
            else ok (spike_isa supported_xlen isa, self')
      ]

-- utils.makeUtil: the makefile, the command and the targets in the order in which they are added.
pub record Make : Type 0 where
  pub makefile_path : Text
  pub make_command : Text
  pub targets : List Text

-- ref.elf, where a coverage file is given
abbrev pub elf_name : Bool → Text
elf_name with_cgf = if with_cgf then codes "ref.elf" else codes "dut.elf"

module _ (name isa : Text) (self : SpikeSession) where
  -- `execute` of a test
  unfoldable pub spike_target : (with_cgf : Bool) → Entry → Result Stop Text
  spike_target with_cgf test =
      let elf = elf_name with_cgf in
      let sig_file = join_path test.entry_dir (but_last name ++ codes ".signature") in
      elim (format self.compile_cmd (map lower test.isa ∷ [])) [
        | err e ↦ err format_error
        | ok compiler ↦
            elim (format (codes " --isa={0} +signature={1} +signature-granularity=4 {2};")
              (isa ∷ sig_file ∷ elf ∷ [])) [
                | err e ↦ err format_error
                | ok flags ↦ ok (
                    codes "@cd "
                    ++ (test.entry_dir
                        ++ (codes ";"
                            ++ (compiler
                                ++ (codes " "
                                    ++ (test.test_path
                                        ++ (codes " -o "
                                            ++ (elf
                                                ++ (codes " -D"
                                                    ++ (join_with (codes " -D") test.macros
                                                        ++ (codes ";"
                                                            ++ (self.plugin.dut_exe
                                                            ++ flags))))))))))))
              ]
      ]

  -- The loop over the tests, behind the targets added so far.
  unfoldable pub add_targets : (with_cgf : Bool) → List Entry → Make → Result Stop Make
  add_targets with_cgf [] made = ok made
  add_targets with_cgf (test ∷ tests) made = elim (spike_target with_cgf test) [
    | err e ↦ err e
    | ok target ↦ add_targets with_cgf tests (record made { targets = made.targets ++ target ∷ [] })
  ]

  -- runTests, up to execute_all
  unfoldable pub prepare_tests : (with_cgf : Bool) → List Entry → Result Stop Make
  prepare_tests with_cgf tests = add_targets with_cgf tests (record {
    makefile_path = join_path self.work_dir (codes "Makefile." ++ but_last name);
    make_command = self.plugin.make ++ (codes " -j" ++ self.plugin.num_jobs);
    targets = [];
  })
