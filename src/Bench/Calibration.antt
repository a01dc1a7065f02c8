-- ===== src/Bench/Calibration.antt =====
-- That the calibrated number of iterations runs long enough, and no longer than that.
use native.Mathlib.Nat.{div-mul-le_self, mod-eq-sub-div-mul, mod-lt, add-mul}
use sisrv_platform.Prelude.{
  ℕ, ◌+◌, ◌-◌, ◌*◌, ◌/◌, ◌%◌, ◌≤◌, ◌<◌, ◌≡◌, max, ap, ◌∙◌, inl, inr, Bool-cases, ==_iff, ◌==◌,
  false, arith,
}
use sisrv_platform.Bench.{ceil_div, coremark_iterations, dhrystone_iterations}

ceil_div_bounds :
    (a b : ℕ)
    → 0 < b
    → 0 < a
    → (a ≤ ceil_div a b * b) × ((ceil_div a b - 1) * b < a) × (0 < ceil_div a b)
ceil_div_bounds a b h p =
    let n : ℕ = a + (b - 1) in
    let q : ℕ = n / b in
    let whole : q * b + n % b ≡ n = omega (arith, mod-eq-sub-div-mul n b, div-mul-le_self n b) in
    let rest : n % b < b = mod-lt n h in
    let some_round : 0 < q = elim (Bool-cases (q == 0)) [
      | inl no_round ↦
          let gone : q * b ≡ 0 = rw ((==_iff q 0).0 no_round) (omega arith) in absurd (omega arith)
      | inr round ↦ ground arith
    ] in
    let split : q ≡ (q - 1) + 1 = omega arith in
    let one_less : q * b ≡ (q - 1) * b + 1 * b =
      ap (λ (t : ℕ). t * b) split ∙ add-mul (q - 1) 1 b in
    (omega arith, omega arith, some_round)

-- Outside smoke runs, the iterations of CoreMark take at least a positive target if each takes as
-- long as the pilot did (one cycle if that took none), one less would not, and there is at least one.
pub coremark_iterations-least :
    (target pilot : ℕ)
    → 0 < target
    → (target ≤ coremark_iterations false target pilot * max 1 pilot)
      × ((coremark_iterations false target pilot - 1) * max 1 pilot < target)
      × (0 < coremark_iterations false target pilot)
unfolding coremark_iterations
coremark_iterations-least target pilot h =
    let (enough, no_more, some_round) = ceil_div_bounds target (max 1 pilot) (omega arith) h in
    let proper : max 1 (ceil_div target (max 1 pilot)) ≡ ceil_div target (max 1 pilot) =
      omega arith in
    rw proper (enough, no_more, some_round)

-- Outside smoke runs, the iterations of Dhrystone take at least a positive target if each takes the
-- whole cycles that one of the pilot's 20 iterations took (one cycle if that is none), one less would
-- not, and there is at least one.
pub dhrystone_iterations-least :
    (target pilot : ℕ)
    → 0 < target
    → (target ≤ dhrystone_iterations false target pilot * max 1 (pilot / 20))
      × ((dhrystone_iterations false target pilot - 1) * max 1 (pilot / 20) < target)
      × (0 < dhrystone_iterations false target pilot)
unfolding dhrystone_iterations
dhrystone_iterations-least target pilot h =
    let (enough, no_more, some_round) =
      ceil_div_bounds target (max 1 (pilot / 20)) (omega arith) h in
    let proper : max 1 (ceil_div target (max 1 (pilot / 20)))
        ≡ ceil_div target (max 1 (pilot / 20)) =
      omega arith in
    rw proper (enough, no_more, some_round)
