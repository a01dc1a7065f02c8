-- ===== src/Isa/Alu/Laws.antt =====
-- How the operations of the reference ALU belong together.
use sisrv_platform.Prelude.{
  ℤ, pos, negsuc, ℕ, ◌+◌, ◌-◌, ◌%◌, ◌^◌, ◌<◌, ◌≡◌, inl, inr, Bool-cases, ltb, if◌then◌else◌,
  bit_and, bit_or, bit_xor, ◌<<<◌, ◌>>>◌, bit_and_mask, arith,
}
use sisrv_platform.Isa.Alu.{
  ltℤ, shift_right, masked, mask32, to_signed32, alu_masked, alu_ref, sub_ℕ, alu_add, alu_sub,
  alu_slt, alu_sltu, alu_srl, alu_sra,
}

masked-mod : (z : ℤ) → masked z < 2 ^ 32
masked-mod (pos a) = omega (arith, bit_and_mask 32 a)
masked-mod (negsuc a) = omega arith

alu_masked-lt : (a b op : ℕ) → alu_masked a b op < 2 ^ 32
unfolding alu_masked
alu_masked-lt a b op = ground (
  arith,
  bit_and_mask 32 (a + b),
  masked-mod (sub_ℕ a b),
  bit_and_mask 32 (a <<< bit_and b 0x1F),
  bit_and_mask 32 (bit_xor a b),
  bit_and_mask 32 (a >>> bit_and b 0x1F),
  masked-mod (shift_right (to_signed32 a) (bit_and b 0x1F)),
  bit_and_mask 32 (bit_or a b),
  bit_and_mask 32 (bit_and a b),
)

-- Whatever the operands and the operation, the result is one of 32 bits.
pub alu_ref-lt : (a b op : ℕ) → alu_ref a b op < 2 ^ 32
unfolding alu_ref
alu_ref-lt a b op = alu_masked-lt (bit_and a mask32) (bit_and b mask32) op

-- The operations as arithmetic on the operands' 32 low bits.
module _ (a b : ℕ) where
  masked_parts : (bit_and a mask32 ≡ a % 2 ^ 32) × (bit_and b mask32 ≡ b % 2 ^ 32)
  masked_parts = (bit_and_mask 32 a, bit_and_mask 32 b)

  alu_ref-add : alu_ref a b alu_add ≡ (a + b) % 2 ^ 32
  unfolding alu_ref alu_masked
  alu_ref-add = omega (arith, masked_parts, bit_and_mask 32 (bit_and a mask32 + bit_and b mask32))

  masked-sub_ℕ :
      (x y : ℕ) → x < 2 ^ 32 → y < 2 ^ 32 → masked (sub_ℕ x y) ≡ (x + 2 ^ 32 - y) % 2 ^ 32
  masked-sub_ℕ x y p q = ground (arith, bit_and_mask 32 (x - y), bit_and_mask 32 (y - x - 1))

  alu_ref-sub : alu_ref a b alu_sub ≡ (a % 2 ^ 32 + 2 ^ 32 - b % 2 ^ 32) % 2 ^ 32
  unfolding alu_ref alu_masked
  alu_ref-sub =
      rw (masked_parts.0, masked_parts.1)
        (masked-sub_ℕ (a % 2 ^ 32) (b % 2 ^ 32) (omega arith) (omega arith))

  alu_ref-sltu : alu_ref a b alu_sltu ≡ (if ltb (a % 2 ^ 32) (b % 2 ^ 32) then 1 else 0)
  unfolding alu_ref alu_masked
  alu_ref-sltu = rw (masked_parts.0, masked_parts.1)

  -- Adding the sign bit to both makes of the signed order the unsigned one.
  signed_order :
      (x y : ℕ)
      → x < 2 ^ 32
      → y < 2 ^ 32
      → ltℤ (to_signed32 x) (to_signed32 y) ≡ ltb ((x + 2 ^ 31) % 2 ^ 32) ((y + 2 ^ 31) % 2 ^ 32)
  unfolding to_signed32
  signed_order x y p q = ground (arith, bit_and_mask 32 x, bit_and_mask 32 y)

-- Subtracting what was added gives the first operand back, in its 32 low bits.
pub alu_ref-sub_add : (a b : ℕ) → alu_ref (alu_ref a b alu_add) b alu_sub ≡ a % 2 ^ 32
alu_ref-sub_add a b = omega (arith, alu_ref-sub (alu_ref a b alu_add) b, alu_ref-add a b)

alu_ref-slt :
    (a b : ℕ)
    → alu_ref a b alu_slt
      ≡ (if ltb ((a % 2 ^ 32 + 2 ^ 31) % 2 ^ 32) ((b % 2 ^ 32 + 2 ^ 31) % 2 ^ 32) then 1 else 0)
unfolding alu_ref alu_masked
alu_ref-slt a b = rw (
  (masked_parts a b).0,
  (masked_parts a b).1,
  signed_order a b (a % 2 ^ 32) (b % 2 ^ 32) (omega arith) (omega arith),
)

-- The signed comparison is the unsigned one of the operands with their sign bits flipped.
pub alu_ref-slt_sltu :
    (a b : ℕ)
    → alu_ref a b alu_slt
      ≡ alu_ref (alu_ref a 0x8000_0000 alu_add) (alu_ref b 0x8000_0000 alu_add) alu_sltu
alu_ref-slt_sltu a b = ground (
  arith,
  alu_ref-slt a b,
  alu_ref-sltu (alu_ref a 0x8000_0000 alu_add) (alu_ref b 0x8000_0000 alu_add),
  alu_ref-add a 0x8000_0000,
  alu_ref-add b 0x8000_0000,
)

-- A right shift of masked operands.
sra_masked : ℕ → ℕ → ℕ
sra_masked x k = masked (shift_right (to_signed32 x) k)

srl_masked : ℕ → ℕ → ℕ
srl_masked x k = bit_and (x >>> k) mask32

to_signed32_lem :
    (x : ℕ)
    → x < 2 ^ 32
    → to_signed32 x ≡ (if ltb x 0x8000_0000 then pos x else negsuc (mask32 - x))
unfolding to_signed32
to_signed32_lem x h = ground (arith, bit_and_mask 32 x)

sra-srl :
    (x k : ℕ)
    → x < 2 ^ 32
    → sra_masked x k
      ≡ (if ltb x 0x8000_0000 then srl_masked x k else mask32 - srl_masked (mask32 - x) k)
unfolding sra_masked srl_masked
sra-srl x k h = elim (Bool-cases (ltb x 0x8000_0000)) [
  | inl positive ↦ rw (to_signed32_lem x h, positive)
  | inr negative ↦ rw (to_signed32_lem x h, negative)
]

-- The arithmetic shift of an operand whose sign bit is clear is the logical one; of any other it is
-- the complement of the logical shift of the complement.
pub alu_ref-sra_srl :
    (a b : ℕ)
    → alu_ref a b alu_sra ≡ (
        if ltb (a % 2 ^ 32) 0x8000_0000
        then alu_ref a b alu_srl
        else mask32 - alu_ref (mask32 - a % 2 ^ 32) b alu_srl)
unfolding alu_ref alu_masked sra_masked srl_masked
alu_ref-sra_srl a b =
    let k : ℕ = bit_and (bit_and b mask32) 0x1F in
    let low : a % 2 ^ 32 < 2 ^ 32 = omega arith in
    let complement : bit_and (mask32 - a % 2 ^ 32) mask32 ≡ mask32 - a % 2 ^ 32 =
      omega (arith, bit_and_mask 32 (mask32 - a % 2 ^ 32)) in
    rw (bit_and_mask 32 a, complement) (sra-srl (a % 2 ^ 32) k low)
