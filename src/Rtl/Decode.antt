-- ===== src/Rtl/Decode.antt =====
-- rtl/core/sisDecode.sv: the instruction decoder, on a word of 32 bits.
pub mod Immediates
pub mod Legality
use sisrv_platform.Prelude.{
  ℕ, ◌+◌, ◌-◌, ◌*◌, ◌/◌, ◌%◌, ◌^◌, Bool, ◌&&◌, ◌||◌, ◌==◌, List, [], ◌∷◌, any,
}

-- `instr[lo + width - 1 : lo]`
abbrev pub slice : ℕ → ℕ → ℕ → ℕ
slice instr lo width = instr / 2 ^ lo % 2 ^ width

-- {width{instr[31]}}
abbrev pub signs : ℕ → ℕ → ℕ
signs instr width = slice instr 31 1 * (2 ^ width - 1)

abbrev pub opcode : ℕ → ℕ
opcode instr = instr % 2 ^ 7

abbrev pub rd : ℕ → ℕ
rd instr = slice instr 7 5

abbrev pub funct3 : ℕ → ℕ
funct3 instr = slice instr 12 3

abbrev pub rs1 : ℕ → ℕ
rs1 instr = slice instr 15 5

abbrev pub rs2 : ℕ → ℕ
rs2 instr = slice instr 20 5

abbrev pub funct7 : ℕ → ℕ
funct7 instr = slice instr 25 7

abbrev pub atomic_funct5 : ℕ → ℕ
atomic_funct5 instr = slice instr 27 5

unfoldable pub imm_i : ℕ → ℕ
imm_i instr = signs instr 20 * 2 ^ 12 + slice instr 20 12

unfoldable pub imm_s : ℕ → ℕ
imm_s instr = signs instr 20 * 2 ^ 12 + slice instr 25 7 * 2 ^ 5 + slice instr 7 5

unfoldable pub imm_b : ℕ → ℕ
imm_b instr =
    signs instr 19 * 2 ^ 13
    + slice instr 31 1 * 2 ^ 12
    + slice instr 7 1 * 2 ^ 11
    + slice instr 25 6 * 2 ^ 5
    + slice instr 8 4 * 2

unfoldable pub imm_u : ℕ → ℕ
imm_u instr = slice instr 12 20 * 2 ^ 12

unfoldable pub imm_j : ℕ → ℕ
imm_j instr =
    signs instr 11 * 2 ^ 21
    + slice instr 31 1 * 2 ^ 20
    + slice instr 12 8 * 2 ^ 12
    + slice instr 20 1 * 2 ^ 11
    + slice instr 21 10 * 2

-- (x == a) || (x == b) || …
abbrev pub is_one_of : ℕ → List ℕ → Bool
is_one_of x xs = any (λ y. x == y) xs

abbrev pub legal_alu_imm : ℕ → ℕ → Bool
legal_alu_imm f3 f7 =
    is_one_of f3 (0 ∷ 2 ∷ 3 ∷ 4 ∷ 6 ∷ 7 ∷ [])
    || (f3 == 1 && f7 == 0)
    || (f3 == 5 && (f7 == 0 || f7 == 0x20))

abbrev pub legal_alu_reg : Bool → ℕ → ℕ → Bool
legal_alu_reg enable_m f3 f7 =
    (f3 == 0 && (f7 == 0 || f7 == 0x20))
    || (f3 == 1 && f7 == 0)
    || (f3 == 2 && f7 == 0)
    || (f3 == 3 && f7 == 0)
    || (f3 == 4 && f7 == 0)
    || (f3 == 5 && (f7 == 0 || f7 == 0x20))
    || (f3 == 6 && f7 == 0)
    || (f3 == 7 && f7 == 0)
    || (enable_m && f7 == 1)

abbrev pub legal_system : ℕ → ℕ → Bool
legal_system f3 csr =
    (f3 == 0 && is_one_of csr (0x000 ∷ 0x001 ∷ 0x105 ∷ 0x302 ∷ []))
    || is_one_of f3 (1 ∷ 2 ∷ 3 ∷ 5 ∷ 6 ∷ 7 ∷ [])

-- `legal_atomic`
unfoldable pub legal_atomic : Bool → ℕ → ℕ → ℕ → Bool
legal_atomic enable_a op f3 f5 =
    enable_a
    && op == 0b010_1111
    && f3 == 0b010
    && is_one_of f5 (
        0b00010 ∷ 0b00011 ∷ 0b00001 ∷ 0b00000 ∷ 0b00100 ∷ 0b01100 ∷ 0b01000 ∷ 0b10000 ∷ 0b10100
        ∷ 0b11000 ∷ 0b11100 ∷ [])

-- The encodings of RV32I and RV32M.
unfoldable pub legal_base : Bool → ℕ → ℕ → ℕ → ℕ → Bool
legal_base enable_m op f3 f7 csr =
    op == 0b011_0111
    || op == 0b001_0111
    || op == 0b110_1111
    || (op == 0b110_0111 && f3 == 0)
    || (op == 0b110_0011 && is_one_of f3 (0 ∷ 1 ∷ 4 ∷ 5 ∷ 6 ∷ 7 ∷ []))
    || (op == 0b000_0011 && is_one_of f3 (0 ∷ 1 ∷ 2 ∷ 4 ∷ 5 ∷ []))
    || (op == 0b010_0011 && is_one_of f3 (0 ∷ 1 ∷ 2 ∷ []))
    || (op == 0b001_0011 && legal_alu_imm f3 f7)
    || (op == 0b011_0011 && legal_alu_reg enable_m f3 f7)
    || (op == 0b111_0011 && legal_system f3 csr)
    || (op == 0b000_1111 && f3 == 0)

-- `is_legal`, for either value of the parameters `ENABLE_M` and `ENABLE_A`.
unfoldable pub is_legal : Bool → Bool → ℕ → Bool
is_legal enable_m enable_a instr =
    legal_base enable_m (opcode instr) (funct3 instr) (funct7 instr) (slice instr 20 12)
    || legal_atomic enable_a (opcode instr) (funct3 instr) (atomic_funct5 instr)
