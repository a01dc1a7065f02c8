-- ===== src/Riscof/Sisrv.antt =====
-- verification/riscof/plugins/sisrv/riscof_sisrv.py. The configuration, the environment, the files
-- and the programs of the machine are parameters; the record that each method leaves is its own type,
-- so that a method takes what the methods before it have set.
pub mod Toolchain
pub mod Setup
pub mod Root
pub mod Run
pub mod Symbols
pub mod Command
pub mod Trace
pub mod Round
pub mod Outcome
pub mod Whole
use sisrv_platform.Prelude.{
  words, ℕ, zero, suc, Bool, true, false, not, Option, none, some, List, [], ◌∷◌, ◌++◌, map, Text,
  codes, Result, ok, err, ◌==◌, if◌then◌else◌, eq_text, any, all, take, drop, length, ◌-◌, lower,
  after_last, is_hex, parse_hex, split_lines, format_dec,
}
use sisrv_platform.Riscof.Format.{replace, format}
use sisrv_platform.Riscof.Paths.{is_abs, join_path, abs_path}
use sisrv_platform.Riscof.Machine.{
  Stop, system_exit, key_error, value_error, format_error, Action, ◌>>=◌, ◌>>◌, pure, raise, lift,
  shell, Output, Nm,
}

-- A section of config.ini, and os.environ.
abbrev pub Lookup : Type 0
Lookup = Text → Option Text

-- m.get(key, default)
abbrev pub get_text : Lookup → Text → Text → Text
get_text m key default = elim (m key) [ none ↦ default | some value ↦ value ]

-- m[key]
abbrev pub need_text : Lookup → Text → Result Stop Text
need_text m key = elim (m key) [ none ↦ err (key_error key) | some value ↦ ok value ]

-- config_dir or "."
abbrev pub dir_or_dot : Option Text → Text
dir_or_dot none = codes "."
dir_or_dot (some []) = codes "."
dir_or_dot (some (c ∷ s)) = c ∷ s

-- What __init__ sets.
pub record Plugin : Type 0 where
  pub pluginpath : Text
  pub isa_spec : Text
  pub platform_spec : Text
  pub num_jobs : Text
  pub target_run : Bool
  pub dut_exe : Text
  pub toolchain_prefix : Text
  pub elf2sisrv : Text
  pub timeout_cycles : Text

-- os.path.join(path, "..", "..", "..", "..")
abbrev pub four_up : Text → Text
four_up path =
    join_path (join_path (join_path (join_path path (codes "..")) (codes "..")) (codes ".."))
      (codes "..")

-- The two paths below the root of the repository.
abbrev pub default_sim_of : Text → Text
default_sim_of repo_root =
    join_path (join_path repo_root (codes "build")) (codes "sim_sisPlatformTop")

abbrev pub elf2sisrv_of : Text → Text
elf2sisrv_of repo_root =
    join_path
      (join_path (join_path (join_path repo_root (codes "verification")) (codes "riscof"))
        (codes "scripts"))
      (codes "elf2sisrv.py")

-- The default of an option that is not set.
abbrev pub prefix_of : Lookup → Lookup → Text
prefix_of environ config = get_text environ (codes "RISCOF_TOOLCHAIN_PREFIX") (
    get_text environ (codes "SISRV_TOOLCHAIN_PREFIX")
      (get_text config (codes "toolchain_prefix") (codes "riscv64-unknown-elf-")))

unfoldable pub sisrv_init :
    (cwd : Text)
    → Lookup
    → (config : Lookup) → (ispec pspec : Text) → (config_dir : Option Text) → Plugin
sisrv_init cwd environ config ispec pspec config_dir =
    let dir = dir_or_dot config_dir in
    let pluginpath =
      abs_path cwd (join_path dir (get_text config (codes "pluginpath") (codes "plugins/sisrv"))) in
    let repo_root = abs_path cwd (four_up pluginpath) in
    let sim_path = get_text config (codes "simulator") (default_sim_of repo_root) in
    record {
      pluginpath = pluginpath;
      isa_spec = abs_path cwd (join_path dir ispec);
      platform_spec = abs_path cwd (join_path dir pspec);
      num_jobs = get_text config (codes "jobs") (codes "1");
      target_run = not (eq_text (get_text config (codes "target_run") (codes "1")) (codes "0"));
      dut_exe = if is_abs sim_path then sim_path else abs_path cwd (join_path dir sim_path);
      toolchain_prefix = prefix_of environ config;
      elf2sisrv = elf2sisrv_of repo_root;
      timeout_cycles = get_text config (codes "timeout_cycles") (codes "1000000");
    }

-- __init__: a missing section stops the program, a missing path of a specification raises.
unfoldable pub init_plugin :
    (cwd : Text) → Lookup → Option Lookup → (config_dir : Option Text) → Result Stop Plugin
init_plugin cwd environ none config_dir = err (system_exit 1)
init_plugin cwd environ (some config) config_dir = elim (need_text config (codes "ispec")) [
  | err e ↦ err e
  | ok ispec ↦ elim (need_text config (codes "pspec")) [
    | err e ↦ err e
    | ok pspec ↦ ok (sisrv_init cwd environ config ispec pspec config_dir)
  ]
]

-- What initialise adds.
pub record Session : Type 0 where
  pub plugin : Plugin
  pub work_dir : Text
  pub suite_dir : Text
  pub compile_cmd : Text

-- The template behind the prefix of the tools.
unfoldable pub compile_tail : (pluginpath archtest_env : Text) → Text
compile_tail pluginpath archtest_env =
    codes "gcc -march={0} -mabi=ilp32 -Wl,-melf32lriscv "
    ++ (codes "-static -mcmodel=medany -fvisibility=hidden -nostdlib -nostartfiles -g "
        ++ (codes "-T "
            ++ (pluginpath
                ++ (codes "/env/link.ld "
                    ++ (codes "-I "
                        ++ (pluginpath
                            ++ (codes "/env/ "
                                ++ (codes "-I " ++ (archtest_env ++ codes " {1} -o {2} {3}")))))))))

unfoldable pub initialise : Plugin → (suite work_dir archtest_env : Text) → Session
initialise plugin suite work_dir archtest_env = record {
  plugin = plugin;
  work_dir = work_dir;
  suite_dir = suite;
  compile_cmd = plugin.toolchain_prefix ++ compile_tail plugin.pluginpath archtest_env;
}

-- What the checks of build read of the machine.
pub record Installed : Type 0 where
  pub which : Text → Bool
  pub is_file : Text → Bool

abbrev pub fallbacks : List Text
fallbacks = codes "riscv64-unknown-elf-" ∷ codes "riscv64-linux-gnu-" ∷ []

-- The loop over the fallback prefixes, with its `else`.
unfoldable pub first_fallback : (Text → Bool) → List Text → Option Text
first_fallback which [] = none
first_fallback which (fallback ∷ later) =
    let rest = first_fallback which later in
    if which (fallback ++ codes "gcc") then some fallback else rest

-- self.toolchain_prefix and self.compile_cmd with a fallback prefix
abbrev pub with_prefix : Session → Text → Session
with_prefix self fallback = record self {
  plugin = record self.plugin { toolchain_prefix = fallback };
  compile_cmd = replace self.plugin.toolchain_prefix fallback self.compile_cmd;
}

unfoldable pub choose_toolchain : (Text → Bool) → Session → Result Stop Session
choose_toolchain which self =
    if which (self.plugin.toolchain_prefix ++ codes "gcc")
    then ok self
    else elim (first_fallback which fallbacks) [
      | none ↦ err (system_exit 1)
      | some fallback ↦ ok (with_prefix self fallback)
    ]

-- 64 in ispec["supported_xlen"]
abbrev pub xlen_of : List ℕ → Text
xlen_of supported = if any (λ x. x == 64) supported then codes "64" else codes "32"

unfoldable pub build :
    Installed → (supported_xlen : List ℕ) → Session → Result Stop (Text × Session)
build installed supported_xlen self = elim (choose_toolchain installed.which self) [
  | err e ↦ err e
  | ok self' ↦
      if not (installed.is_file self'.plugin.dut_exe)
      then err (system_exit 1)
      else if not (installed.is_file self'.plugin.elf2sisrv)
      then err (system_exit 1)
      else ok (xlen_of supported_xlen, self')
]
