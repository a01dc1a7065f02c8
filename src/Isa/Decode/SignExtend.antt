-- ===== src/Isa/Decode/SignExtend.antt =====
-- The sign extension of the decoder's tests.
use native.Mathlib.Nat.{pow-suc, one-le-pow, mul-mod_left, add-mul, div-eq_of_lt, div-eq_of_lt-le}
use sisrv_platform.Prelude.{
  ℕ, suc, ◌+◌, ◌-◌, ◌*◌, ◌/◌, ◌%◌, ◌^◌, ◌≤◌, ◌<◌, ◌≡◌, sym, ◌∙◌, ap, inl, inr, false, ltb, ◌==◌,
  if◌then◌else◌, Bool-cases, bit_and, bit_or_comm, bit_and_mask, bit_and_shifted, bit_or_disjoint,
  pow_add, arith,
}
use sisrv_platform.Isa.Decode.{sign_extend, mask32}

module _ (k : ℕ) (narrow : k < 32) where
  -- The word's length is a multiple of the value's.
  whole : 2 ^ (31 - k) * 2 ^ suc k ≡ 2 ^ 32
  whole =
      let together : (31 - k) + suc k ≡ 32 = omega arith in
      sym (pow_add (31 - k) (suc k)) ∙ ap (λ (t : ℕ). 2 ^ t) together

  shorter : 2 ^ suc k ≤ 2 ^ 32
  shorter = grind (arith, whole, one-le-pow (31 - k) 2)

  high_ones : bit_and (mask32 * 2 ^ suc k) mask32 ≡ 2 ^ 32 - 2 ^ suc k
  high_ones = omega (arith, bit_and_mask 32 (mask32 * 2 ^ suc k), shorter, one-le-pow (suc k) 2)

  high_clear : (2 ^ 32 - 2 ^ suc k) % 2 ^ suc k ≡ 0
  high_clear =
      let higher : 2 ^ (31 - k) ≡ (2 ^ (31 - k) - 1) + 1 = omega (arith, one-le-pow (31 - k) 2) in
      let scaled : 2 ^ 32 - 2 ^ suc k ≡ (2 ^ (31 - k) - 1) * 2 ^ suc k = omega (
        arith,
        whole,
        ap (λ (t : ℕ). t * 2 ^ suc k) higher,
        add-mul (2 ^ (31 - k) - 1) 1 (2 ^ suc k),
      ) in
      rw scaled (mul-mod_left (2 ^ (31 - k) - 1) (2 ^ suc k))

  sign_bit : (val : ℕ) → bit_and val (1 * 2 ^ k) ≡ val / 2 ^ k % 2 * 2 ^ k
  sign_bit val = bit_and_shifted k val 1 ∙ ap (λ (t : ℕ). t * 2 ^ k) (bit_and_mask 1 (val / 2 ^ k))

-- A value of k + 1 bits, of at most 32, is left as it is where its leading bit is clear, and
-- otherwise gets ones in all the bits above.
pub sign_extend_lem :
    (k val : ℕ)
    → k < 32
    → val < 2 ^ suc k
    → sign_extend val (suc k) ≡ (if ltb val (2 ^ k) then val else val + (2 ^ 32 - 2 ^ suc k))
unfolding sign_extend
sign_extend_lem k val narrow fits =
    let one_less : suc k - 1 ≡ k = omega arith in
    elim (Bool-cases (ltb val (2 ^ k))) [
      | inl clear ↦
          let below : val < 2 ^ k = ground arith in
          let lead : bit_and val (1 * 2 ^ k) ≡ 0 =
            sign_bit k narrow val ∙ rw (div-eq_of_lt below) (omega arith) in
          let short : val < 2 ^ 32 = omega (arith, shorter k narrow) in
          rw (one_less, lead, clear) (omega (arith, bit_and_mask 32 val))
      | inr filled ↦
          let one_lead : val / 2 ^ k ≡ 1 =
            div-eq_of_lt-le {k = 1} (2 ^ k) (ground arith) (omega (arith, pow-suc 2 k)) in
          let lead : bit_and val (1 * 2 ^ k) ≡ 2 ^ k =
            sign_bit k narrow val ∙ rw one_lead (omega arith) in
          let set_bit : (2 ^ k == 0) ≡ false = ground (arith, one-le-pow k 2) in
          rw (one_less, lead, set_bit, filled, high_ones k narrow)
            (bit_or_comm val (2 ^ 32 - 2 ^ suc k)
              ∙ bit_or_disjoint (suc k) (2 ^ 32 - 2 ^ suc k) val (high_clear k narrow) fits
              ∙ omega arith)
    ]
