-- ===== src/Rtl/Alu.antt =====
-- rtl/core/sisAlu.sv: the combinational ALU, on operands of 32 bits and an operation of 4.
pub mod Reference
use sisrv_platform.Prelude.{
  ℕ, ◌+◌, ◌-◌, ◌%◌, ◌^◌, Bool, ltb, ◌==◌, if◌then◌else◌, bit_and, bit_or, bit_xor, ◌<<<◌, ◌>>>◌,
}

-- $signed(a) < $signed(b): with a sign bit set, a word stands for what lies below 0.
unfoldable pub less_signed : ℕ → ℕ → Bool
less_signed a b =
    if ltb a 0x8000_0000
    then (if ltb b 0x8000_0000 then ltb a b else Bool.false)
    else if ltb b 0x8000_0000
    then Bool.true
    else ltb a b

-- $signed(a) >>> shamt: copies of the sign bit are shifted in.
unfoldable pub shift_arithmetic : ℕ → ℕ → ℕ
shift_arithmetic a shamt =
    if ltb a 0x8000_0000 then a >>> shamt else (a >>> shamt) + (2 ^ 32 - 2 ^ (32 - shamt))

-- `result`; `b[4:0]` is the shift amount.
unfoldable pub alu_result : ℕ → ℕ → ℕ → ℕ
alu_result a b op =
    let shamt = b % 2 ^ 5 in
    if op == 0b0000
    then (a + b) % 2 ^ 32
    else if op == 0b1000
    then (a + 2 ^ 32 - b) % 2 ^ 32
    else if op == 0b0001
    then (a <<< shamt) % 2 ^ 32
    else if op == 0b0010
    then (if less_signed a b then 1 else 0)
    else if op == 0b0011
    then (if ltb a b then 1 else 0)
    else if op == 0b0100
    then bit_xor a b
    else if op == 0b0101
    then a >>> shamt
    else if op == 0b1101
    then shift_arithmetic a shamt
    else if op == 0b0110
    then bit_or a b
    else if op == 0b0111
    then bit_and a b
    else 0

-- `zero`
unfoldable pub alu_zero : ℕ → ℕ → ℕ → ℕ
alu_zero a b op = if alu_result a b op == 0 then 1 else 0
