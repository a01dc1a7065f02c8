-- ===== src/Isa/Decode/Legal.antt =====
-- Which words the decoder's tests call legal.
use sisrv_platform.Prelude.{
  ℕ, ◌/◌, ◌%◌, ◌^◌, ◌<◌, ◌≡◌, refl, true, not, ◌&&◌, ◌||◌, ◌==◌, ltb, ◌>>>◌, bit_and_mask, arith,
}
use sisrv_platform.Isa.Decode.{
  encode_r, encode_i, encode_b, is_rv32im_legal, is_legal_parts, is_alu_imm_legal, is_alu_reg_legal,
  op_alu_reg, op_alu_imm, op_branch,
}
use sisrv_platform.Isa.Decode.Fields.{
  InFields, encode_r-fields, encode_i-fields, encode_b-fields, opcode_of, funct3_of, funct7_of,
}

-- The predicate reads the fields.
pub is_rv32im_legal-parts :
    (instr : ℕ)
    → is_rv32im_legal instr
      ≡ is_legal_parts
          (opcode_of instr)
          (funct3_of instr)
          (funct7_of instr)
          (instr / 2 ^ 20 % 2 ^ 12)
unfolding is_rv32im_legal
is_rv32im_legal-parts instr = rw (
  bit_and_mask 7 instr,
  bit_and_mask 3 (instr >>> 12),
  bit_and_mask 7 (instr >>> 25),
  bit_and_mask 12 (instr >>> 20),
)

is_legal_parts-low_bits :
    (opcode funct3 funct7 csr : ℕ) → is_legal_parts opcode funct3 funct7 csr ≡ true → opcode % 4 ≡ 3
unfolding is_legal_parts
is_legal_parts-low_bits opcode funct3 funct7 csr h = ground arith

-- A legal word ends in the bits 11, which no compressed instruction does.
pub is_rv32im_legal-low_bits : (instr : ℕ) → is_rv32im_legal instr ≡ true → instr % 4 ≡ 3
is_rv32im_legal-low_bits instr h =
    let of_opcode =
      is_legal_parts-low_bits (opcode_of instr) (funct3_of instr) (funct7_of instr)
        (instr / 2 ^ 20 % 2 ^ 12) (rw (is_rv32im_legal-parts instr) at h) in
    omega arith

is_alu_reg_legal-table :
    (funct3 funct7 : ℕ)
    → funct3 < 8
    → is_alu_reg_legal funct3 funct7
      ≡ (funct7 == 0 || funct7 == 1 || (funct7 == 32 && (funct3 == 0 || funct3 == 5)))
unfolding is_alu_reg_legal
is_alu_reg_legal-table funct3 funct7 h = ground arith

is_legal_parts-alu_reg :
    (funct3 funct7 csr : ℕ)
    → is_legal_parts op_alu_reg funct3 funct7 csr ≡ is_alu_reg_legal funct3 funct7
unfolding is_legal_parts
is_legal_parts-alu_reg funct3 funct7 csr = refl

-- A register instruction of operands that fit is legal exactly if its funct7 is 0, or 1 as for the multiplications, or
-- 32 with the funct3 of SUB or SRA; its registers make no difference.
pub is_rv32im_legal-encode_r :
    (funct7 rs2 rs1 funct3 rd : ℕ)
    → funct7 < 128
    → InFields rs2 rs1 funct3 rd op_alu_reg
    → is_rv32im_legal (encode_r funct7 rs2 rs1 funct3 rd op_alu_reg)
      ≡ (funct7 == 0 || funct7 == 1 || (funct7 == 32 && (funct3 == 0 || funct3 == 5)))
is_rv32im_legal-encode_r funct7 rs2 rs1 funct3 rd u h =
    let (f7, _, _, f3, _, op, _) = encode_r-fields funct7 rs2 rs1 funct3 rd op_alu_reg u h in
    rw
      (
        is_rv32im_legal-parts (encode_r funct7 rs2 rs1 funct3 rd op_alu_reg),
        f7,
        f3,
        op,
        is_legal_parts-alu_reg,
      )
      (is_alu_reg_legal-table funct3 funct7 h.funct3_fits)

is_legal_parts-shift : (funct7 csr : ℕ) → is_legal_parts op_alu_imm 1 funct7 csr ≡ (funct7 == 0)
unfolding is_legal_parts is_alu_imm_legal
is_legal_parts-shift funct7 csr = refl

-- A left shift by an immediate of 12 bits, with registers that fit, is legal exactly if the immediate
-- is below 32.
pub is_rv32im_legal-encode_i :
    (imm12 rs1 rd : ℕ)
    → imm12 < 2 ^ 12
    → InFields 0 rs1 1 rd op_alu_imm
    → is_rv32im_legal (encode_i imm12 rs1 1 rd op_alu_imm) ≡ ltb imm12 32
is_rv32im_legal-encode_i imm12 rs1 rd u h =
    let w : ℕ = encode_i imm12 rs1 1 rd op_alu_imm in
    let (imm, _, f3, _, op, _) = encode_i-fields imm12 rs1 1 rd op_alu_imm h in
    let f7 : funct7_of w ≡ imm12 / 32 = omega arith in
    rw (is_rv32im_legal-parts w, f7, f3, op, is_legal_parts-shift) (ground arith)

is_legal_parts-branch :
    (funct3 funct7 csr : ℕ)
    → funct3 < 8
    → is_legal_parts op_branch funct3 funct7 csr ≡ not (funct3 == 2 || funct3 == 3)
unfolding is_legal_parts
is_legal_parts-branch funct3 funct7 csr h = ground arith

-- A branch to an even offset is legal exactly if its funct3 is neither 2 nor 3.
pub is_rv32im_legal-encode_b :
    (imm13 rs2 rs1 funct3 : ℕ)
    → imm13 % 2 ≡ 0
    → InFields rs2 rs1 funct3 0 op_branch
    → is_rv32im_legal (encode_b imm13 rs2 rs1 funct3 op_branch) ≡ not (funct3 == 2 || funct3 == 3)
is_rv32im_legal-encode_b imm13 rs2 rs1 funct3 u h =
    let w : ℕ = encode_b imm13 rs2 rs1 funct3 op_branch in
    let (_, _, _, f3, op, _) = encode_b-fields imm13 rs2 rs1 funct3 op_branch u h in
    rw (is_rv32im_legal-parts w, f3, op)
      (is_legal_parts-branch funct3 (funct7_of w) (w / 2 ^ 20 % 2 ^ 12) h.funct3_fits)
