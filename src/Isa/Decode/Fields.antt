-- ===== src/Isa/Decode/Fields.antt =====
-- The fields and immediates of an encoded instruction, read back at the places where the RISC-V
-- formats have them.
use sisrv_platform.Prelude.{ℕ, ◌+◌, ◌*◌, ◌/◌, ◌%◌, ◌^◌, ◌<◌, ◌≡◌, arith}
use sisrv_platform.Isa.Decode.{encode_r, encode_i, encode_s, encode_b, encode_u, encode_j}
use sisrv_platform.Isa.Decode.Sums.{
  encode_r-sum, encode_i-sum, encode_s-sum, encode_b-sum, encode_u-sum, encode_j-sum,
}

-- Where the instruction formats have the operands.
abbrev pub opcode_of : ℕ → ℕ
opcode_of instr = instr % 2 ^ 7

abbrev pub rd_of : ℕ → ℕ
rd_of instr = instr / 2 ^ 7 % 2 ^ 5

abbrev pub funct3_of : ℕ → ℕ
funct3_of instr = instr / 2 ^ 12 % 2 ^ 3

abbrev pub rs1_of : ℕ → ℕ
rs1_of instr = instr / 2 ^ 15 % 2 ^ 5

abbrev pub rs2_of : ℕ → ℕ
rs2_of instr = instr / 2 ^ 20 % 2 ^ 5

abbrev pub funct7_of : ℕ → ℕ
funct7_of instr = instr / 2 ^ 25 % 2 ^ 7

-- The immediates of the I, S, B, U and J formats, without their sign extension.
abbrev pub imm_i_of : ℕ → ℕ
imm_i_of instr = instr / 2 ^ 20 % 2 ^ 12

abbrev pub imm_s_of : ℕ → ℕ
imm_s_of instr = instr / 2 ^ 25 % 2 ^ 7 * 2 ^ 5 + instr / 2 ^ 7 % 2 ^ 5

abbrev pub imm_b_of : ℕ → ℕ
imm_b_of instr =
    instr / 2 ^ 31 % 2 * 2 ^ 12
    + instr / 2 ^ 7 % 2 * 2 ^ 11
    + instr / 2 ^ 25 % 2 ^ 6 * 2 ^ 5
    + instr / 2 ^ 8 % 2 ^ 4 * 2

abbrev pub imm_u_of : ℕ → ℕ
imm_u_of instr = instr / 2 ^ 12 % 2 ^ 20

abbrev pub imm_j_of : ℕ → ℕ
imm_j_of instr =
    instr / 2 ^ 31 % 2 * 2 ^ 20
    + instr / 2 ^ 12 % 2 ^ 8 * 2 ^ 12
    + instr / 2 ^ 20 % 2 * 2 ^ 11
    + instr / 2 ^ 21 % 2 ^ 10 * 2

-- The operands that fit their fields.
pub record InFields (rs2 rs1 funct3 rd opcode : ℕ) : Type 0 where
  pub rs2_fits : rs2 < 32
  pub rs1_fits : rs1 < 32
  pub funct3_fits : funct3 < 8
  pub rd_fits : rd < 32
  pub opcode_fits : opcode < 128

-- An R-type word of operands that fit is one of 32 bits and holds each of them in its field.
pub encode_r-fields :
    (funct7 rs2 rs1 funct3 rd opcode : ℕ)
    → funct7 < 128
    → InFields rs2 rs1 funct3 rd opcode
    → (funct7_of (encode_r funct7 rs2 rs1 funct3 rd opcode) ≡ funct7)
      × (rs2_of (encode_r funct7 rs2 rs1 funct3 rd opcode) ≡ rs2)
      × (rs1_of (encode_r funct7 rs2 rs1 funct3 rd opcode) ≡ rs1)
      × (funct3_of (encode_r funct7 rs2 rs1 funct3 rd opcode) ≡ funct3)
      × (rd_of (encode_r funct7 rs2 rs1 funct3 rd opcode) ≡ rd)
      × (opcode_of (encode_r funct7 rs2 rs1 funct3 rd opcode) ≡ opcode)
      × (encode_r funct7 rs2 rs1 funct3 rd opcode < 2 ^ 32)
encode_r-fields funct7 rs2 rs1 funct3 rd opcode u h =
    rw
      (encode_r-sum funct7 rs2 rs1 funct3 rd opcode h.rs2_fits h.rs1_fits h.funct3_fits h.rd_fits
        h.opcode_fits)
      (omega arith, omega arith, omega arith, omega arith, omega arith, omega arith, omega arith)

-- An I-type word of operands that fit has 32 bits, each operand in its field and the 12 low bits of
-- the immediate.
pub encode_i-fields :
    (imm12 rs1 funct3 rd opcode : ℕ)
    → InFields 0 rs1 funct3 rd opcode
    → (imm_i_of (encode_i imm12 rs1 funct3 rd opcode) ≡ imm12 % 2 ^ 12)
      × (rs1_of (encode_i imm12 rs1 funct3 rd opcode) ≡ rs1)
      × (funct3_of (encode_i imm12 rs1 funct3 rd opcode) ≡ funct3)
      × (rd_of (encode_i imm12 rs1 funct3 rd opcode) ≡ rd)
      × (opcode_of (encode_i imm12 rs1 funct3 rd opcode) ≡ opcode)
      × (encode_i imm12 rs1 funct3 rd opcode < 2 ^ 32)
encode_i-fields imm12 rs1 funct3 rd opcode h =
    rw (encode_i-sum imm12 rs1 funct3 rd opcode h.rs1_fits h.funct3_fits h.rd_fits h.opcode_fits)
      (omega arith, omega arith, omega arith, omega arith, omega arith, omega arith)

-- An S-type word of operands that fit has 32 bits, each operand in its field and, in its two pieces,
-- the 12 low bits of the immediate.
pub encode_s-fields :
    (imm12 rs2 rs1 funct3 opcode : ℕ)
    → InFields rs2 rs1 funct3 0 opcode
    → (imm_s_of (encode_s imm12 rs2 rs1 funct3 opcode) ≡ imm12 % 2 ^ 12)
      × (rs2_of (encode_s imm12 rs2 rs1 funct3 opcode) ≡ rs2)
      × (rs1_of (encode_s imm12 rs2 rs1 funct3 opcode) ≡ rs1)
      × (funct3_of (encode_s imm12 rs2 rs1 funct3 opcode) ≡ funct3)
      × (opcode_of (encode_s imm12 rs2 rs1 funct3 opcode) ≡ opcode)
      × (encode_s imm12 rs2 rs1 funct3 opcode < 2 ^ 32)
encode_s-fields imm12 rs2 rs1 funct3 opcode h =
    rw (encode_s-sum imm12 rs2 rs1 funct3 opcode h.rs2_fits h.rs1_fits h.funct3_fits h.opcode_fits)
      (omega arith, omega arith, omega arith, omega arith, omega arith, omega arith)

-- A B-type word of operands that fit and an even offset has 32 bits, each operand in its field and,
-- in its four pieces, the 13 low bits of the offset.
pub encode_b-fields :
    (imm13 rs2 rs1 funct3 opcode : ℕ)
    → imm13 % 2 ≡ 0
    → InFields rs2 rs1 funct3 0 opcode
    → (imm_b_of (encode_b imm13 rs2 rs1 funct3 opcode) ≡ imm13 % 2 ^ 13)
      × (rs2_of (encode_b imm13 rs2 rs1 funct3 opcode) ≡ rs2)
      × (rs1_of (encode_b imm13 rs2 rs1 funct3 opcode) ≡ rs1)
      × (funct3_of (encode_b imm13 rs2 rs1 funct3 opcode) ≡ funct3)
      × (opcode_of (encode_b imm13 rs2 rs1 funct3 opcode) ≡ opcode)
      × (encode_b imm13 rs2 rs1 funct3 opcode < 2 ^ 32)
encode_b-fields imm13 rs2 rs1 funct3 opcode u h =
    rw (encode_b-sum imm13 rs2 rs1 funct3 opcode h.rs2_fits h.rs1_fits h.funct3_fits h.opcode_fits)
      (omega arith, omega arith, omega arith, omega arith, omega arith, omega arith)

-- A U-type word of operands that fit has 32 bits, each operand in its field and the 20 low bits of
-- the immediate.
pub encode_u-fields :
    (imm20 rd opcode : ℕ)
    → InFields 0 0 0 rd opcode
    → (imm_u_of (encode_u imm20 rd opcode) ≡ imm20 % 2 ^ 20)
      × (rd_of (encode_u imm20 rd opcode) ≡ rd)
      × (opcode_of (encode_u imm20 rd opcode) ≡ opcode)
      × (encode_u imm20 rd opcode < 2 ^ 32)
encode_u-fields imm20 rd opcode h =
    rw (encode_u-sum imm20 rd opcode h.rd_fits h.opcode_fits)
      (omega arith, omega arith, omega arith, omega arith)

-- A J-type word of operands that fit and an even offset has 32 bits, each operand in its field and,
-- in its four pieces, the 21 low bits of the offset.
pub encode_j-fields :
    (imm21 rd opcode : ℕ)
    → imm21 % 2 ≡ 0
    → InFields 0 0 0 rd opcode
    → (imm_j_of (encode_j imm21 rd opcode) ≡ imm21 % 2 ^ 21)
      × (rd_of (encode_j imm21 rd opcode) ≡ rd)
      × (opcode_of (encode_j imm21 rd opcode) ≡ opcode)
      × (encode_j imm21 rd opcode < 2 ^ 32)
encode_j-fields imm21 rd opcode u h =
    rw (encode_j-sum imm21 rd opcode h.rd_fits h.opcode_fits)
      (omega arith, omega arith, omega arith, omega arith)
