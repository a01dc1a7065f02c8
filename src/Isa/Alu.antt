-- ===== src/Isa/Alu.antt =====
-- tb/cocotb/test_alu.py: the reference model of the ALU. A Python integer is an integer of the
-- model where it may be negative, and a number where it is not.
pub mod Laws
use sisrv_platform.Prelude.{
  ℤ, pos, negsuc, ℕ, suc, ◌+◌, ◌-◌, ◌*◌, ◌/◌, ◌^◌, Bool, true, false, ltb, ◌==◌, if◌then◌else◌,
  bit_and, bit_or, bit_xor, ◌<<<◌, ◌>>>◌,
}

-- a < b
abbrev pub ltℤ : ℤ → ℤ → Bool
ltℤ (pos a) (pos b) = ltb a b
ltℤ (pos a) (negsuc b) = false
ltℤ (negsuc a) (pos b) = true
ltℤ (negsuc a) (negsuc b) = ltb b a

-- a >> k, which rounds down.
abbrev pub shift_right : ℤ → ℕ → ℤ
shift_right (pos a) k = pos (a >>> k)
shift_right (negsuc a) k = negsuc (a >>> k)

abbrev pub mask32 : ℕ
mask32 = 0xFFFF_FFFF

-- a & MASK32: of a negative number, in two's complement.
abbrev pub masked : ℤ → ℕ
masked (pos a) = bit_and a mask32
masked (negsuc a) = mask32 - bit_and a mask32

abbrev pub alu_add : ℕ
alu_add = 0b0000

abbrev pub alu_sub : ℕ
alu_sub = 0b1000

abbrev pub alu_sll : ℕ
alu_sll = 0b0001

abbrev pub alu_slt : ℕ
alu_slt = 0b0010

abbrev pub alu_sltu : ℕ
alu_sltu = 0b0011

abbrev pub alu_xor : ℕ
alu_xor = 0b0100

abbrev pub alu_srl : ℕ
alu_srl = 0b0101

abbrev pub alu_sra : ℕ
alu_sra = 0b1101

abbrev pub alu_or : ℕ
alu_or = 0b0110

abbrev pub alu_and : ℕ
alu_and = 0b0111

-- a - b of two numbers, as an integer.
abbrev pub sub_ℕ : ℕ → ℕ → ℤ
sub_ℕ a b = if ltb a b then negsuc (b - a - 1) else pos (a - b)

unfoldable pub to_signed32 : ℕ → ℤ
to_signed32 val =
    let low = bit_and val mask32 in if ltb low 0x8000_0000 then pos low else sub_ℕ low 0x1_0000_0000

-- The reference on operands that are masked already.
unfoldable pub alu_masked : ℕ → ℕ → ℕ → ℕ
alu_masked a b op =
    if op == alu_add
    then bit_and (a + b) mask32
    else if op == alu_sub
    then masked (sub_ℕ a b)
    else if op == alu_sll
    then bit_and (a <<< bit_and b 0x1F) mask32
    else if op == alu_slt
    then (if ltℤ (to_signed32 a) (to_signed32 b) then 1 else 0)
    else if op == alu_sltu
    then (if ltb a b then 1 else 0)
    else if op == alu_xor
    then bit_and (bit_xor a b) mask32
    else if op == alu_srl
    then bit_and (a >>> bit_and b 0x1F) mask32
    else if op == alu_sra
    then masked (shift_right (to_signed32 a) (bit_and b 0x1F))
    else if op == alu_or
    then bit_and (bit_or a b) mask32
    else if op == alu_and
    then bit_and (bit_and a b) mask32
    else 0

unfoldable pub alu_ref : ℕ → ℕ → ℕ → ℕ
alu_ref a b op = alu_masked (bit_and a mask32) (bit_and b mask32) op

-- What the hardware shows after its operands are applied, and the two assertions of the test.
pub record AluOutputs : Type 0 where
  pub result : ℕ
  pub zero_flag : ℕ

unfoldable pub apply_and_check : (ℕ → ℕ → ℕ → AluOutputs) → ℕ → ℕ → ℕ → Bool
apply_and_check dut a b op =
    let got = dut (bit_and a mask32) (bit_and b mask32) op in
    let expected = alu_ref a b op in
    let exp_zero = if expected == 0 then 1 else 0 in
    if got.result == expected then got.zero_flag == exp_zero else false
