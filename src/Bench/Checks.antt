-- ===== src/Bench/Checks.antt =====
-- What a row that is reported stands for.
use sisrv_platform.Prelude.{
  ℕ, zero, suc, ◌==◌, refl, ◌*◌, ◌≤◌, ◌≡◌, ◌≢◌, Bool, true, false, not, ◌&&◌, ltb, List, [], ◌∷◌,
  Text, codes, contains, ok, Result, subst, ensure, >>=-eq-ok, arith,
}
use sisrv_platform.Bench.{
  BenchError, parse_int_line, coremark_row, coremark_checks, coremark_min_cycles, Ratio, divide,
  Row, Seeds, performance_seeds, validation_seeds, ticks_of, run_coremark, coremark_iterations,
  SimulateCoremark,
}

ensured : (b : Bool) (e : BenchError) (u : Unit {0}) → ensure b e ≡ ok u → b ≡ true
ensured true e u h = refl
ensured false e u h = cc

coremark_checks-passed :
    (smoke : Bool) (row : Row) (u : Unit {0})
    → coremark_checks smoke row ≡ ok u
    → (row.validated ≡ true) × (smoke ≡ false → coremark_min_cycles false ≤ row.cycles)
unfolding coremark_checks
coremark_checks-passed smoke row u h =
    let (_, long, marked) = >>=-eq-ok (ensure _ _) _ h in
    (ensured row.validated _ u marked, λ p. long_enough smoke p (ensured _ _ _ long))
  where
    long_enough :
        (smoke : Bool)
        → smoke ≡ false
        → not (not smoke && ltb row.cycles (coremark_min_cycles smoke)) ≡ true
        → coremark_min_cycles false ≤ row.cycles
    long_enough true p _ = cc
    long_enough false _ e = ground arith

divide-parts :
    (n d : ℕ) {q : Ratio}
    → divide n d ≡ ok q
    → (q ≡ record { numerator = n; denominator = d }) × (d ≢ 0)
unfolding divide
divide-parts n zero h = cc
divide-parts n (suc d) {q} h =
    let some_divisor : suc d == 0 ≡ false = ground arith in
    let same : ◌≡◌ {A = Result BenchError Ratio}
        (ok (record { numerator = n; denominator = suc d })) (ok q) =
      rw some_divisor at h in
    (cc, λ e. ground arith)

-- The row is the log's: its numbers and ratios are those of the log and do exist, it took the least
-- number of cycles outside smoke runs, and the log says that it was validated.
pub record IsSound (smoke : Bool) (isa variant : Text) (seeds : Seeds) (text : Text) (row : Row)
    : Type 0 where
  pub of_isa : row.isa ≡ isa
  pub of_variant : row.variant ≡ variant
  pub of_seeds : row.seeds ≡ seeds
  pub of_log : parse_int_line text (codes "Total ticks") ≡ ok row.cycles
  pub iterations_of_log : parse_int_line text (codes "Iterations") ≡ ok row.iterations
  pub per_mhz :
      row.coremark_per_mhz
      ≡ record { numerator = row.iterations * 1_000_000; denominator = row.cycles }
  pub per_iteration :
      row.cycles_per_iteration ≡ record { numerator = row.cycles; denominator = row.iterations }
  pub long_enough : smoke ≡ false → coremark_min_cycles false ≤ row.cycles
  pub no_ratio_fails : (row.cycles ≢ 0) × (row.iterations ≢ 0)
  pub marked : contains text (codes "Correct operation validated.") ≡ true

coremark_row-IsSound :
    (smoke : Bool) (isa variant : Text) (seeds : Seeds) (text : Text) {row : Row}
    → coremark_row smoke isa variant seeds text ≡ ok row
    → IsSound smoke isa variant seeds text row
unfolding coremark_row
coremark_row-IsSound smoke isa variant seeds text {row} h =
    let (cycles, got_cycles, h1) = >>=-eq-ok (parse_int_line text (codes "Total ticks")) _ h in
    let (iterations, got_iterations, h2) =
      >>=-eq-ok (parse_int_line text (codes "Iterations")) _ h1 in
    let (per_mhz, divided, h3) = >>=-eq-ok (divide (iterations * 1_000_000) cycles) _ h2 in
    let (per_iteration, divided_too, h4) = >>=-eq-ok (divide cycles iterations) _ h3 in
    let (checked, passed, h5) = >>=-eq-ok (coremark_checks smoke _) _ h4 in
    let (marked, long) = coremark_checks-passed smoke _ checked passed in
    let (mhz, some_cycles) = divide-parts _ _ divided in
    let (iteration, some_iterations) = divide-parts _ _ divided_too in
    subst (IsSound smoke isa variant seeds text) (ok_same h5) (record {
      of_isa = refl;
      of_variant = refl;
      of_seeds = refl;
      of_log = got_cycles;
      iterations_of_log = got_iterations;
      per_mhz = mhz;
      per_iteration = iteration;
      long_enough = long;
      no_ratio_fails = (some_cycles, some_iterations);
      marked = marked;
    })
  where
    ok_same : {a b : Row} → ◌≡◌ {A = Result BenchError Row} (ok a) (ok b) → a ≡ b
    ok_same e = cc

-- The logs behind a run's two rows: of builds with the seeds of each, and of the same number of
-- iterations, which the pilot's cycles give.
pub record IsRun (simulate : SimulateCoremark) (smoke : Bool) (target : ℕ) (isa : Text)
    (performance validation : Row) : Type 0 where
  pub pilot_text : Text
  pub pilot_cycles : ℕ
  pub performance_text : Text
  pub validation_text : Text
  pub of_pilot : simulate isa (codes "pilot") 1 performance_seeds (ticks_of smoke) ≡ ok pilot_text
  pub of_pilot_cycles : parse_int_line pilot_text (codes "Total ticks") ≡ ok pilot_cycles
  pub of_performance :
      simulate isa
        (codes "performance")
        (coremark_iterations smoke target pilot_cycles)
        performance_seeds
        (ticks_of smoke)
      ≡ ok performance_text
  pub of_validation :
      simulate isa
        (codes "validation")
        (coremark_iterations smoke target pilot_cycles)
        validation_seeds
        (ticks_of smoke)
      ≡ ok validation_text
  pub performance_sound :
      IsSound smoke isa (codes "performance") performance_seeds performance_text performance
  pub validation_sound :
      IsSound smoke isa (codes "validation") validation_seeds validation_text validation

-- A CoreMark run that reports rows reports two, the performance row and the validation row; both are
-- sound, and their logs are those of builds with the seeds of each and with the number of iterations
-- that the pilot's cycles give.
pub run_coremark-IsRun :
    (simulate : SimulateCoremark) (smoke : Bool) (target : ℕ) (isa : Text) {rows : List Row}
    → run_coremark simulate smoke target isa ≡ ok rows
    → (performance : Row) × (validation : Row) × (rows ≡ performance ∷ validation ∷ [])
      × IsRun simulate smoke target isa performance validation
unfolding run_coremark
run_coremark-IsRun simulate smoke target isa h =
    let (pilot_text, of_pilot, h1) =
      >>=-eq-ok (simulate isa (codes "pilot") 1 performance_seeds (ticks_of smoke)) _ h in
    let (pilot_cycles, of_cycles, h2) =
      >>=-eq-ok (parse_int_line pilot_text (codes "Total ticks")) _ h1 in
    let n : ℕ = coremark_iterations smoke target pilot_cycles in
    let (performance_text, of_performance, h3) =
      >>=-eq-ok (simulate isa (codes "performance") n performance_seeds (ticks_of smoke)) _ h2 in
    let (performance, row1, h4) =
      >>=-eq-ok (coremark_row smoke isa (codes "performance") performance_seeds performance_text) _
        h3 in
    let (validation_text, of_validation, h5) =
      >>=-eq-ok (simulate isa (codes "validation") n validation_seeds (ticks_of smoke)) _ h4 in
    let (validation, row2, h6) =
      >>=-eq-ok (coremark_row smoke isa (codes "validation") validation_seeds validation_text) _
        h5 in
    (
      performance,
      validation,
      cc,
      record {
        pilot_text = pilot_text;
        pilot_cycles = pilot_cycles;
        performance_text = performance_text;
        validation_text = validation_text;
        of_pilot = of_pilot;
        of_pilot_cycles = of_cycles;
        of_performance = of_performance;
        of_validation = of_validation;
        performance_sound =
            coremark_row-IsSound smoke isa (codes "performance") performance_seeds performance_text
              row1;
        validation_sound =
            coremark_row-IsSound smoke isa (codes "validation") validation_seeds validation_text
              row2;
      },
    )
