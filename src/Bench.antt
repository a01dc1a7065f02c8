-- ===== src/Bench.antt =====
-- scripts/run_benchmarks.py: the values read from a log, the calibration of the iterations, and the
-- checks of a result. Building and simulating enter as a function from what is built to the log. `math.ceil(target / n)` is modelled as the exact ceiling: the float
-- division is exact enough for it below 2 ^ 52, and the targets are about 10 ^ 7.
pub mod Calibration
pub mod Builds
pub mod Printed
pub mod Driver
pub mod Checks
mod Tests
use sisrv_platform.Prelude.{
  ℤ, pos, negsuc, parse_int_10, parse_dec, ℕ, zero, suc, ◌+◌, ◌-◌, ◌*◌, ◌/◌, ◌%◌, min, max, Bool,
  true, false, not, ◌&&◌, ◌||◌, Option, none, some, List, [], ◌∷◌, ◌++◌, map, Text, codes, contains,
  eq_text, Result, ok, err, ◌>>=◌, ◌>>◌, ensure, ltb, ◌==◌, if◌then◌else◌, is_digit, is_space,
  is_break, span, run1, literal, strip, all,
}

-- What stops a benchmark: a missing value, a number that `int` refuses, a process that fails, a
-- division by zero, and the checks' own errors.
pub data BenchError : Type 0 where
  missing : Text → BenchError
  value_error : Text → BenchError
  system_exit : ℤ → BenchError
  zero_division : BenchError
  below_minimum : (cycles : ℤ) (min_cycles : ℕ) → BenchError
  validation_failed : BenchError
  missing_marker : BenchError

-- ^key\s*:?\s*([0-9]+) at one place; \s may run over the end of the line.
abbrev pub skip_colon : Text → Text
skip_colon [] = []
skip_colon (c ∷ s) = if c == b':' then s else c ∷ s

unfoldable pub int_at : Text → Text → Option ℕ
int_at key s = elim (literal key s) [
  | none ↦ none
  | some rest ↦ elim (run1 is_digit (span is_space (skip_colon (span is_space rest).1)).1) [
    | none ↦ none
    | some (digits, _) ↦ some (parse_dec 0 digits)
  ]
]

-- re.search with MULTILINE: the first match at the start of the text or behind a newline.
unfoldable pub search_starts {ℓ} : {A : Type ℓ} → (Text → Option A) → Bool → Text → Option A
search_starts match_at at_start [] = if at_start then match_at [] else none
search_starts match_at at_start (c ∷ s) =
    let later = search_starts match_at (c == 10) s in
    elim (if at_start then match_at (c ∷ s) else none) [ none ↦ later | some v ↦ some v ]

unfoldable pub parse_int_line : Text → Text → Result BenchError ℕ
parse_int_line text key = elim (search_starts (int_at key) true text) [
  | none ↦ err (missing key)
  | some n ↦ ok n
]

-- ^SISRV_BENCH key=([^\n]+) at one place
unfoldable pub value_at : Text → Text → Option Text
value_at key s = elim (literal (codes "SISRV_BENCH " ++ key ++ codes "=") s) [
  | none ↦ none
  | some rest ↦ elim (run1 (λ c. not (c == 10)) rest) [ none ↦ none | some (v, _) ↦ some v ]
]

unfoldable pub parse_sisrv_value : Text → Text → Result BenchError Text
parse_sisrv_value text key = elim (search_starts (value_at key) true text) [
  | none ↦ err (missing key)
  | some v ↦ ok (strip v)
]

-- int(s)
unfoldable pub int_of : Text → Result BenchError ℤ
int_of s = elim (parse_int_10 s) [ none ↦ err (value_error s) | some n ↦ ok n ]

-- math.ceil(a / b), where b is positive
abbrev pub ceil_div : ℕ → ℕ → ℕ
ceil_div a b = (a + (b - 1)) / b

abbrev pub coremark_min_cycles : Bool → ℕ
coremark_min_cycles smoke = if smoke then 10_000 else 10_000_000

abbrev pub dhrystone_min_cycles : Bool → ℕ
dhrystone_min_cycles smoke = if smoke then 10_000 else 2_000_000

unfoldable pub coremark_iterations : Bool → (target_cycles pilot_cycles : ℕ) → ℕ
coremark_iterations smoke target_cycles pilot_cycles =
    let iterations = max 1 (ceil_div target_cycles (max 1 pilot_cycles)) in
    if smoke then max 1 (min iterations 2) else iterations

abbrev pub pilot_iter : Bool → ℕ
pilot_iter smoke = if smoke then 2 else 20

unfoldable pub dhrystone_iterations : Bool → (target_cycles pilot_cycles : ℕ) → ℕ
dhrystone_iterations smoke target_cycles pilot_cycles =
    let cycles_per_iter = max 1 (pilot_cycles / pilot_iter smoke) in
    let iterations = max 1 (ceil_div target_cycles cycles_per_iter) in
    if smoke then max 2 (min iterations 10) else iterations

-- A quotient of two numbers, as it stands; the code keeps the float nearest to it.
pub record Ratio : Type 0 where
  pub numerator : ℕ
  pub denominator : ℕ

-- n / d
unfoldable pub divide : (n d : ℕ) → Result BenchError Ratio
divide n d = if d == 0 then err zero_division else ok (record { numerator = n; denominator = d })

-- The seeds of a CoreMark build.
pub record Seeds : Type 0 where
  pub seed1 : ℕ
  pub seed2 : ℕ
  pub seed3 : ℕ

-- A row of CoreMark; its benchmark is always the same.
pub record Row : Type 0 where
  pub isa : Text
  pub variant : Text
  pub seeds : Seeds
  pub iterations : ℕ
  pub cycles : ℕ
  pub coremark_per_mhz : Ratio
  pub cycles_per_iteration : Ratio
  pub validated : Bool
  pub log : Text

-- The path of a log, from the root.
abbrev pub log_path : (isa variant : Text) → Text
log_path isa variant = codes "build/bench/coremark/" ++ (isa ++ b'/' ∷ (variant ++ codes ".log"))

-- The checks of a row that has been built.
unfoldable pub coremark_checks : Bool → Row → Result BenchError (Unit {0})
coremark_checks smoke row = do
  ensure (not (not smoke && ltb row.cycles (coremark_min_cycles smoke)))
      (below_minimum (pos row.cycles) (coremark_min_cycles smoke))
  ensure row.validated validation_failed

-- One round of the loop, from the log on: the row is built, ratios included, before it is checked.
unfoldable pub coremark_row :
    Bool → (isa variant : Text) → Seeds → (text : Text) → Result BenchError Row
coremark_row smoke isa variant seeds text = do
  cycles ← parse_int_line text (codes "Total ticks")
  reported_iterations ← parse_int_line text (codes "Iterations")
  coremark_per_mhz ← divide (reported_iterations * 1_000_000) cycles
  cycles_per_iteration ← divide cycles reported_iterations
  let row : Row = record {
    isa = isa;
    variant = variant;
    seeds = seeds;
    iterations = reported_iterations;
    cycles = cycles;
    coremark_per_mhz = coremark_per_mhz;
    cycles_per_iteration = cycles_per_iteration;
    validated = contains text (codes "Correct operation validated.");
    log = log_path isa variant;
  }
  coremark_checks smoke row
  ok row

-- Building a variant of CoreMark with a number of iterations, its seeds and the ticks of a second,
-- and running it: the log.
abbrev pub SimulateCoremark : Type 0
SimulateCoremark =
    (isa variant : Text) → (iterations : ℕ) → Seeds → (ticks_per_sec : ℕ) → Result BenchError Text

abbrev pub performance_seeds : Seeds
performance_seeds = record { seed1 = 0; seed2 = 0; seed3 = 0x66 }

abbrev pub validation_seeds : Seeds
validation_seeds = record { seed1 = 0x3415; seed2 = 0x3415; seed3 = 0x66 }

abbrev pub ticks_of : Bool → ℕ
ticks_of smoke = if smoke then 1_000 else 1_000_000

-- target_cycles is math.ceil(min_cycles * 1.02).
unfoldable pub run_coremark :
    SimulateCoremark → Bool → (target_cycles : ℕ) → (isa : Text) → Result BenchError (List Row)
run_coremark simulate smoke target_cycles isa = do
  pilot_text ← simulate isa (codes "pilot") 1 performance_seeds (ticks_of smoke)
  pilot_cycles ← parse_int_line pilot_text (codes "Total ticks")
  let iterations = coremark_iterations smoke target_cycles pilot_cycles
  performance_text ←
      simulate isa (codes "performance") iterations performance_seeds (ticks_of smoke)
  performance ← coremark_row smoke isa (codes "performance") performance_seeds performance_text
  validation_text ← simulate isa (codes "validation") iterations validation_seeds (ticks_of smoke)
  validation ← coremark_row smoke isa (codes "validation") validation_seeds validation_text
  ok (performance ∷ validation ∷ [])

-- The fields that are read as floats, for which a text is good or not.
abbrev pub float_fields : List Text
float_fields =
    codes "cycles_per_iteration"
    ∷ codes "instructions_per_iteration"
    ∷ codes "cpi"
    ∷ codes "dhrystones_per_sec_per_mhz"
    ∷ codes "dmips_per_mhz"
    ∷ []

-- The texts of the fields, each of which `float` must accept.
unfoldable pub read_floats : (Text → Bool) → Text → List Text → Result BenchError (List Text)
read_floats is_float text [] = ok []
read_floats is_float text (key ∷ keys) = do
  v ← parse_sisrv_value text key
  ensure (is_float v) (value_error v)
  vs ← read_floats is_float text keys
  ok (v ∷ vs)

-- A row of Dhrystone; its benchmark is always the same, and it is always validated. The floats are
-- the texts of `float_fields`, in that order.
pub record DhrystoneRow : Type 0 where
  pub isa : Text
  pub iterations : ℤ
  pub cycles : ℤ
  pub instret : ℤ
  pub floats : List Text
  pub log : Text

-- z < n
abbrev pub is_below : ℤ → ℕ → Bool
is_below (pos z) n = ltb z n
is_below (negsuc z) n = true

unfoldable pub dhrystone_row :
    (Text → Bool) → Bool → (isa text : Text) → Result BenchError DhrystoneRow
dhrystone_row is_float smoke isa text = do
  benchmark ← parse_sisrv_value text (codes "benchmark")
  ensure (eq_text benchmark (codes "dhrystone")) missing_marker
  ensure (contains text (codes "Validation        : PASS")) validation_failed
  cycles_text ← parse_sisrv_value text (codes "cycles")
  cycles ← int_of cycles_text
  ensure (not (not smoke && is_below cycles (dhrystone_min_cycles smoke)))
      (below_minimum cycles (dhrystone_min_cycles smoke))
  iterations_text ← parse_sisrv_value text (codes "iterations")
  iterations ← int_of iterations_text
  instret_text ← parse_sisrv_value text (codes "instret")
  instret ← int_of instret_text
  floats ← read_floats is_float text float_fields
  ok (record {
    isa = isa;
    iterations = iterations;
    cycles = cycles;
    instret = instret;
    floats = floats;
    log = codes "build/bench/dhrystone/" ++ (isa ++ codes "/dhrystone.log");
  })

-- max(0, z): the cycles of the pilot count only where they are positive, since the quotient of a
-- negative number is below 1.
abbrev pub or_zero : ℤ → ℕ
or_zero (pos z) = z
or_zero (negsuc z) = 0

-- Building Dhrystone with a number of iterations, and running it into the log of a name.
abbrev pub SimulateDhrystone : Type 0
SimulateDhrystone = (isa log_name : Text) → (iterations : ℕ) → Result BenchError Text

unfoldable pub run_dhrystone :
    SimulateDhrystone
    → (Text → Bool)
    → Bool
    → (target_cycles : ℕ) → (isa : Text) → Result BenchError DhrystoneRow
run_dhrystone simulate is_float smoke target_cycles isa = do
  pilot_text ← simulate isa (codes "pilot") (pilot_iter smoke)
  pilot_value ← parse_sisrv_value pilot_text (codes "cycles")
  pilot_cycles ← int_of pilot_value
  text ←
      simulate isa (codes "dhrystone")
        (dhrystone_iterations smoke target_cycles (or_zero pilot_cycles))
  dhrystone_row is_float smoke isa text
