-- ===== src/Isa/Pmp/Napot.antt =====
-- The mask of a naturally aligned region.
use sisrv_platform.Prelude.{
  ℕ, zero, suc, ◌+◌, ◌-◌, ◌*◌, ◌/◌, ◌^◌, ◌≤◌, ◌<◌, ◌≡◌, false, ◌==◌, bit_and, bit_xor, bit_xor_last,
  bit_xor_self, bit_and_comm, double, Bool-cases, inl, inr, ltb, bit_and_mask, arith,
}
use native.Mathlib.Nat.{pow-suc, one-le-pow, pow-le-pow_right}
use sisrv_platform.Isa.Pmp.{napot_mask, all_ones}

-- A number that ends in a clear bit and k ones differs from its successor in these bits.
xor_trailing :
    (k q : ℕ)
    → bit_xor (q * 2 ^ suc k + (2 ^ k - 1)) (q * 2 ^ suc k + (2 ^ k - 1) + 1) ≡ 2 ^ suc k - 1
xor_trailing zero q =
    let halves : ((q * 2 + 0) / 2 ≡ q) × ((q * 2 + 0 + 1) / 2 ≡ q) = omega arith in
    rw (bit_xor_last (q * 2 + 0) (q * 2 + 0 + 1), halves.0, halves.1, bit_xor_self q) (omega arith)
xor_trailing (suc k) q =
    let y : ℕ = q * 2 ^ suc k + (2 ^ k - 1) in
    let x : ℕ = q * 2 ^ suc (suc k) + (2 ^ suc k - 1) in
    let twice : x ≡ 2 * y + 1 = omega (arith, double q (suc k), pow-suc 2 k, one-le-pow k 2) in
    let halves : (x / 2 ≡ y) × ((x + 1) / 2 ≡ y + 1) = omega (arith, twice) in
    rw (bit_xor_last x (x + 1), halves.0, halves.1, xor_trailing k q)
      (omega (arith, pow-suc 2 (suc k), one-le-pow (suc k) 2))

pow_bound : (k : ℕ) → 2 ^ k < 2 ^ 32 → 2 ^ suc k ≤ 2 ^ 32
pow_bound k h = elim (Bool-cases (ltb k 32)) [
  | inl few ↦ pow-le-pow_right {n = 2} (omega arith) {i = suc k} {j = 32} (ground arith)
  | inr many ↦
      let large : 2 ^ 32 ≤ 2 ^ k =
        pow-le-pow_right {n = 2} (omega arith) {i = 32} {j = k} (ground arith) in
      absurd (omega arith)
]

-- An address register below all ones that ends in a clear bit and k ones stands for a region whose
-- mask leaves the k + 1 low bits out.
pub napot_mask-size :
    (k q : ℕ)
    → q * 2 ^ suc k + (2 ^ k - 1) < 2 ^ 32 - 1
    → napot_mask (q * 2 ^ suc k + (2 ^ k - 1)) ≡ 2 ^ 32 - 2 ^ suc k
unfolding napot_mask
napot_mask-size k q h =
    let pa : ℕ = q * 2 ^ suc k + (2 ^ k - 1) in
    let low : bit_and pa all_ones ≡ pa = omega (arith, bit_and_mask 32 pa) in
    let short : 2 ^ suc k ≤ 2 ^ 32 = pow_bound k (omega (arith, one-le-pow k 2)) in
    let selected : bit_and all_ones (2 ^ suc k - 1) ≡ 2 ^ suc k - 1 = omega (
      arith,
      bit_and_comm all_ones (2 ^ suc k - 1),
      bit_and_mask 32 (2 ^ suc k - 1),
      one-le-pow (suc k) 2,
    ) in
    let other : (pa == all_ones) ≡ false = ground arith in
    rw (low, other, xor_trailing k q, selected) (omega (arith, one-le-pow (suc k) 2))
