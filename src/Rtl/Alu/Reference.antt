-- ===== src/Rtl/Alu/Reference.antt =====
-- The ALU of rtl/core/sisAlu.sv and the reference of tb/cocotb/test_alu.py.
use sisrv_platform.Prelude.{
  ℕ, zero, suc, ◌+◌, ◌-◌, ◌*◌, ◌/◌, ◌%◌, ◌^◌, ◌<◌, ◌≡◌, refl, sym, ap, ◌∙◌, true, bit_and, bit_or,
  bit_xor, ◌<<<◌, bit_and_mask, bit_and_last, bit_or_last, bit_xor_last, pow_add, arith,
}
use native.Mathlib.Nat.{div-add-mod', div-lt_iff_lt-mul, div-le_self, one-le-pow}
use sisrv_platform.Isa.Alu.{
  ltℤ, shift_right, masked, mask32, to_signed32, alu_masked, alu_ref, sub_ℕ, AluOutputs,
  apply_and_check,
}
use sisrv_platform.Rtl.Alu.{less_signed, shift_arithmetic, alu_result, alu_zero}

-- Words of `k` bits are combined to one of `k` bits.
bit_xor-lt : (k a b : ℕ) → a < 2 ^ k → b < 2 ^ k → bit_xor a b < 2 ^ k
bit_xor-lt zero zero zero p q = omega arith
bit_xor-lt zero (suc a) b p q = absurd (omega arith)
bit_xor-lt zero zero (suc b) p q = absurd (omega arith)
bit_xor-lt (suc k) a b p q =
    omega (arith, bit_xor_last a b, bit_xor-lt k (a / 2) (b / 2) (omega arith) (omega arith))

bit_or-lt : (k a b : ℕ) → a < 2 ^ k → b < 2 ^ k → bit_or a b < 2 ^ k
bit_or-lt zero zero zero p q = omega arith
bit_or-lt zero (suc a) b p q = absurd (omega arith)
bit_or-lt zero zero (suc b) p q = absurd (omega arith)
bit_or-lt (suc k) a b p q =
    omega (arith, bit_or_last a b, bit_or-lt k (a / 2) (b / 2) (omega arith) (omega arith))

bit_and-lt : (k a b : ℕ) → a < 2 ^ k → b < 2 ^ k → bit_and a b < 2 ^ k
bit_and-lt zero zero zero p q = omega arith
bit_and-lt zero (suc a) b p q = absurd (omega arith)
bit_and-lt zero zero (suc b) p q = absurd (omega arith)
bit_and-lt (suc k) a b p q =
    omega (arith, bit_and_last a b, bit_and-lt k (a / 2) (b / 2) (omega arith) (omega arith))

masked_small : (n : ℕ) → n < 2 ^ 32 → bit_and n mask32 ≡ n
masked_small n h = omega (arith, bit_and_mask 32 n)

quotient : (n c q r : ℕ) → n ≡ c * q + r → r < q → n / q ≡ c
quotient n c q r e h = grind arith

-- A number and its complement below `p * q`, divided by `q`.
complement_at : (a c d e q : ℕ) → 0 < q → a / q ≡ d → a + c + 1 ≡ (d + 1 + e) * q → c / q ≡ e
complement_at a c d e q h f g =
    quotient c e q (q - 1 - a % q) (grind (arith, div-add-mod' a q)) (grind arith)

complement : (a c p q : ℕ) → 0 < q → a + c + 1 ≡ p * q → c / q + a / q + 1 ≡ p
complement a c p q h e =
    let below : a / q < p = (div-lt_iff_lt-mul h).1 (omega (arith, e)) in
    let split : a / q + 1 + (p - 1 - a / q) ≡ p = omega arith in
    omega (arith, complement_at a c (a / q) (p - 1 - a / q) q h refl (rw split e))

powers : (k : ℕ) → k < 32 → 2 ^ (32 - k) * 2 ^ k ≡ 2 ^ 32
powers k h =
    let whole : 32 - k + k ≡ 32 = omega arith in
    sym (pow_add (32 - k) k) ∙ ap (λ (n : ℕ). 2 ^ n) whole

module _ (a b : ℕ) (small_a : a < 2 ^ 32) (small_b : b < 2 ^ 32) where
  difference : masked (sub_ℕ a b) ≡ (a + 2 ^ 32 - b) % 2 ^ 32
  difference = ground (arith, bit_and_mask 32 (a - b), bit_and_mask 32 (b - a - 1))

  order : ltℤ (to_signed32 a) (to_signed32 b) ≡ less_signed a b
  unfolding to_signed32 less_signed
  order = ground (arith, bit_and_mask 32 a, bit_and_mask 32 b)

  complement_shifted :
      (p q : ℕ) → 0 < q → p * q ≡ 2 ^ 32 → mask32 - (mask32 - a) / q ≡ a / q + (2 ^ 32 - p)
  complement_shifted p q h e = omega (arith, complement a (mask32 - a) p q h (omega (arith, e)))

  arithmetic : (k : ℕ) → k < 32 → masked (shift_right (to_signed32 a) k) ≡ shift_arithmetic a k
  unfolding to_signed32 shift_arithmetic
  arithmetic k h = ground (
    arith,
    bit_and_mask 32 a,
    masked_small (a / 2 ^ k) (omega (arith, div-le_self a (2 ^ k))),
    masked_small ((mask32 - a) / 2 ^ k) (omega (arith, div-le_self (mask32 - a) (2 ^ k))),
    complement_shifted (2 ^ (32 - k)) (2 ^ k) (one-le-pow k 2 (omega arith)) (powers k h),
  )

  alu_result-alu_masked : (op : ℕ) → alu_masked a b op ≡ alu_result a b op
  unfolding alu_masked alu_result
  alu_result-alu_masked op =
      let k : ℕ = b % 2 ^ 5 in
      rw (bit_and_mask 5 b) (
        ground (
          arith,
          bit_and_mask 32 (a + b),
          difference,
          bit_and_mask 32 (a <<< k),
          order,
          masked_small (bit_xor a b) (bit_xor-lt 32 a b small_a small_b),
          masked_small (a / 2 ^ k) (omega (arith, div-le_self a (2 ^ k))),
          arithmetic k (omega arith),
          masked_small (bit_or a b) (bit_or-lt 32 a b small_a small_b),
          masked_small (bit_and a b) (bit_and-lt 32 a b small_a small_b),
        ))

-- The outputs of the ALU, as the test reads them.
unfoldable pub sis_alu : ℕ → ℕ → ℕ → AluOutputs
sis_alu a b op = record { result = alu_result a b op; zero_flag = alu_zero a b op }

-- The ALU of the repository shows, for every pair of operands and every operation code, defined or
-- not, the result and the zero flag of the reference: the check of the ALU's tests never fails.
pub apply_and_check-sis_alu : (a b op : ℕ) → apply_and_check sis_alu a b op ≡ true
unfolding apply_and_check alu_ref sis_alu alu_zero
apply_and_check-sis_alu a b op =
    let x : ℕ = bit_and a mask32 in
    let y : ℕ = bit_and b mask32 in
    let e : alu_masked x y op ≡ alu_result x y op =
      alu_result-alu_masked x y (omega (arith, bit_and_mask 32 a))
        (omega (arith, bit_and_mask 32 b)) op in
    ground (arith, e)
