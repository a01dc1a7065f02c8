-- ===== src/Isa/Decode.antt =====
-- tb/cocotb/test_decode.py: the instruction encoders of the decoder's tests, and the predicate that
-- says which words are legal.
pub mod Sums
pub mod Fields
pub mod Legal
pub mod SignExtend
use sisrv_platform.Prelude.{
  ℕ, ◌+◌, ◌-◌, ◌*◌, ◌^◌, Bool, true, false, ◌||◌, List, [], ◌∷◌, ◌==◌, if◌then◌else◌, any, bit_and,
  bit_or, ◌<<<◌, ◌>>>◌,
}

abbrev pub mask32 : ℕ
mask32 = 0xFFFF_FFFF

unfoldable pub sign_extend : ℕ → ℕ → ℕ
sign_extend val bits =
    if bit_and val (1 <<< (bits - 1)) == 0
    then bit_and val mask32
    else bit_or val (bit_and (mask32 <<< bits) mask32)

unfoldable pub encode_r : ℕ → ℕ → ℕ → ℕ → ℕ → ℕ → ℕ
encode_r funct7 rs2 rs1 funct3 rd opcode =
    bit_or
      (bit_or (bit_or (bit_or (bit_or (funct7 <<< 25) (rs2 <<< 20)) (rs1 <<< 15)) (funct3 <<< 12))
        (rd <<< 7))
      opcode

unfoldable pub encode_i : ℕ → ℕ → ℕ → ℕ → ℕ → ℕ
encode_i imm12 rs1 funct3 rd opcode =
    bit_or
      (bit_or (bit_or (bit_or (bit_and imm12 0xFFF <<< 20) (rs1 <<< 15)) (funct3 <<< 12))
        (rd <<< 7))
      opcode

unfoldable pub encode_s : ℕ → ℕ → ℕ → ℕ → ℕ → ℕ
encode_s imm12 rs2 rs1 funct3 opcode =
    let imm11_5 = bit_and (imm12 >>> 5) 0x7F in
    let imm4_0 = bit_and imm12 0x1F in
    bit_or
      (bit_or (bit_or (bit_or (bit_or (imm11_5 <<< 25) (rs2 <<< 20)) (rs1 <<< 15)) (funct3 <<< 12))
        (imm4_0 <<< 7))
      opcode

unfoldable pub encode_b : ℕ → ℕ → ℕ → ℕ → ℕ → ℕ
encode_b imm13 rs2 rs1 funct3 opcode =
    let b12 = bit_and (imm13 >>> 12) 1 in
    let b11 = bit_and (imm13 >>> 11) 1 in
    let b10_5 = bit_and (imm13 >>> 5) 0x3F in
    let b4_1 = bit_and (imm13 >>> 1) 0xF in
    bit_or
      (bit_or
        (bit_or
          (bit_or (bit_or (bit_or (bit_or (b12 <<< 31) (b10_5 <<< 25)) (rs2 <<< 20)) (rs1 <<< 15))
            (funct3 <<< 12))
          (b4_1 <<< 8))
        (b11 <<< 7))
      opcode

unfoldable pub encode_u : ℕ → ℕ → ℕ → ℕ
encode_u imm20 rd opcode = bit_or (bit_or (bit_and imm20 0xF_FFFF <<< 12) (rd <<< 7)) opcode

unfoldable pub encode_j : ℕ → ℕ → ℕ → ℕ
encode_j imm21 rd opcode =
    let b20 = bit_and (imm21 >>> 20) 1 in
    let b19_12 = bit_and (imm21 >>> 12) 0xFF in
    let b11 = bit_and (imm21 >>> 11) 1 in
    let b10_1 = bit_and (imm21 >>> 1) 0x3FF in
    bit_or
      (bit_or (bit_or (bit_or (bit_or (b20 <<< 31) (b10_1 <<< 21)) (b11 <<< 20)) (b19_12 <<< 12))
        (rd <<< 7))
      opcode

abbrev pub op_lui : ℕ
op_lui = 0b011_0111

abbrev pub op_auipc : ℕ
op_auipc = 0b001_0111

abbrev pub op_jal : ℕ
op_jal = 0b110_1111

abbrev pub op_jalr : ℕ
op_jalr = 0b110_0111

abbrev pub op_branch : ℕ
op_branch = 0b110_0011

abbrev pub op_load : ℕ
op_load = 0b000_0011

abbrev pub op_store : ℕ
op_store = 0b010_0011

abbrev pub op_alu_imm : ℕ
op_alu_imm = 0b001_0011

abbrev pub op_alu_reg : ℕ
op_alu_reg = 0b011_0011

abbrev pub op_fence : ℕ
op_fence = 0b000_1111

abbrev pub op_system : ℕ
op_system = 0b111_0011

-- x in (…)
abbrev pub is_in : ℕ → List ℕ → Bool
is_in x xs = any (λ y. x == y) xs

-- The tests below the opcode's.
unfoldable pub is_alu_imm_legal : ℕ → ℕ → Bool
is_alu_imm_legal funct3 funct7 =
    if is_in funct3 (0 ∷ 2 ∷ 3 ∷ 4 ∷ 6 ∷ 7 ∷ [])
    then true
    else if funct3 == 1
    then funct7 == 0
    else if funct3 == 5
    then is_in funct7 (0 ∷ 0x20 ∷ [])
    else false

unfoldable pub is_alu_reg_legal : ℕ → ℕ → Bool
is_alu_reg_legal funct3 funct7 =
    if funct7 == 1
    then true
    else if funct3 == 0
    then is_in funct7 (0 ∷ 0x20 ∷ [])
    else if is_in funct3 (1 ∷ 2 ∷ 3 ∷ 4 ∷ 6 ∷ 7 ∷ [])
    then funct7 == 0
    else if funct3 == 5
    then is_in funct7 (0 ∷ 0x20 ∷ [])
    else false

unfoldable pub is_legal_parts : ℕ → ℕ → ℕ → ℕ → Bool
is_legal_parts opcode funct3 funct7 csr =
    if opcode == op_lui || opcode == op_auipc || opcode == op_jal
    then true
    else if opcode == op_jalr
    then funct3 == 0
    else if opcode == op_branch
    then is_in funct3 (0 ∷ 1 ∷ 4 ∷ 5 ∷ 6 ∷ 7 ∷ [])
    else if opcode == op_load
    then is_in funct3 (0 ∷ 1 ∷ 2 ∷ 4 ∷ 5 ∷ [])
    else if opcode == op_store
    then is_in funct3 (0 ∷ 1 ∷ 2 ∷ [])
    else if opcode == op_alu_imm
    then is_alu_imm_legal funct3 funct7
    else if opcode == op_alu_reg
    then is_alu_reg_legal funct3 funct7
    else if opcode == op_system
    then (if funct3 == 0
        then is_in csr (0x000 ∷ 0x001 ∷ 0x105 ∷ 0x302 ∷ [])
        else is_in funct3 (1 ∷ 2 ∷ 3 ∷ 5 ∷ 6 ∷ 7 ∷ []))
    else if opcode == op_fence
    then funct3 == 0
    else false

unfoldable pub is_rv32im_legal : ℕ → Bool
is_rv32im_legal instr =
    is_legal_parts (bit_and instr 0x7F) (bit_and (instr >>> 12) 0x7) (bit_and (instr >>> 25) 0x7F)
      (bit_and (instr >>> 20) 0xFFF)
