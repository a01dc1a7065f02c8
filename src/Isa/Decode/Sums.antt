-- ===== src/Isa/Decode/Sums.antt =====
-- The encoded instruction words as sums of their fields.
use sisrv_platform.Prelude.{
  ℕ, ◌+◌, ◌*◌, ◌/◌, ◌%◌, ◌^◌, ◌<◌, ◌≡◌, ◌>>>◌, bit_and_mask, bit_or_disjoint, arith,
}
use sisrv_platform.Isa.Decode.{encode_r, encode_i, encode_s, encode_b, encode_u, encode_j}

pub encode_r-sum :
    (funct7 rs2 rs1 funct3 rd opcode : ℕ)
    → rs2 < 32
    → rs1 < 32
    → funct3 < 8
    → rd < 32
    → opcode < 128
    → encode_r funct7 rs2 rs1 funct3 rd opcode
      ≡ funct7 * 2 ^ 25 + rs2 * 2 ^ 20 + rs1 * 2 ^ 15 + funct3 * 2 ^ 12 + rd * 2 ^ 7 + opcode
unfolding encode_r
encode_r-sum funct7 rs2 rs1 funct3 rd opcode a b c d e = rw (
  bit_or_disjoint 25 (funct7 * 2 ^ 25) (rs2 * 2 ^ 20) (omega arith) (omega arith),
  bit_or_disjoint 20 (funct7 * 2 ^ 25 + rs2 * 2 ^ 20) (rs1 * 2 ^ 15) (omega arith) (omega arith),
  bit_or_disjoint 15 (funct7 * 2 ^ 25 + rs2 * 2 ^ 20 + rs1 * 2 ^ 15) (funct3 * 2 ^ 12) (omega arith)
      (omega arith),
  bit_or_disjoint 12 (funct7 * 2 ^ 25 + rs2 * 2 ^ 20 + rs1 * 2 ^ 15 + funct3 * 2 ^ 12) (rd * 2 ^ 7)
      (omega arith) (omega arith),
  bit_or_disjoint 7 (funct7 * 2 ^ 25 + rs2 * 2 ^ 20 + rs1 * 2 ^ 15 + funct3 * 2 ^ 12 + rd * 2 ^ 7)
      opcode (omega arith) (omega arith),
)

pub encode_i-sum :
    (imm12 rs1 funct3 rd opcode : ℕ)
    → rs1 < 32
    → funct3 < 8
    → rd < 32
    → opcode < 128
    → encode_i imm12 rs1 funct3 rd opcode
      ≡ imm12 % 2 ^ 12 * 2 ^ 20 + rs1 * 2 ^ 15 + funct3 * 2 ^ 12 + rd * 2 ^ 7 + opcode
unfolding encode_i
encode_i-sum imm12 rs1 funct3 rd opcode a b c d = rw (
  bit_and_mask 12 (imm12),
  bit_or_disjoint 20 (imm12 % 2 ^ 12 * 2 ^ 20) (rs1 * 2 ^ 15) (omega arith) (omega arith),
  bit_or_disjoint 15 (imm12 % 2 ^ 12 * 2 ^ 20 + rs1 * 2 ^ 15) (funct3 * 2 ^ 12) (omega arith)
      (omega arith),
  bit_or_disjoint 12 (imm12 % 2 ^ 12 * 2 ^ 20 + rs1 * 2 ^ 15 + funct3 * 2 ^ 12) (rd * 2 ^ 7)
      (omega arith) (omega arith),
  bit_or_disjoint 7 (imm12 % 2 ^ 12 * 2 ^ 20 + rs1 * 2 ^ 15 + funct3 * 2 ^ 12 + rd * 2 ^ 7) opcode
      (omega arith) (omega arith),
)

pub encode_s-sum :
    (imm12 rs2 rs1 funct3 opcode : ℕ)
    → rs2 < 32
    → rs1 < 32
    → funct3 < 8
    → opcode < 128
    → encode_s imm12 rs2 rs1 funct3 opcode
      ≡ imm12 / 2 ^ 5 % 2 ^ 7 * 2 ^ 25
        + rs2 * 2 ^ 20
        + rs1 * 2 ^ 15
        + funct3 * 2 ^ 12
        + imm12 % 2 ^ 5 * 2 ^ 7
        + opcode
unfolding encode_s
encode_s-sum imm12 rs2 rs1 funct3 opcode a b c d = rw (
  bit_and_mask 7 (imm12 >>> 5),
  bit_and_mask 5 (imm12),
  bit_or_disjoint 25 (imm12 / 2 ^ 5 % 2 ^ 7 * 2 ^ 25) (rs2 * 2 ^ 20) (omega arith) (omega arith),
  bit_or_disjoint 20 (imm12 / 2 ^ 5 % 2 ^ 7 * 2 ^ 25 + rs2 * 2 ^ 20) (rs1 * 2 ^ 15) (omega arith)
      (omega arith),
  bit_or_disjoint 15 (imm12 / 2 ^ 5 % 2 ^ 7 * 2 ^ 25 + rs2 * 2 ^ 20 + rs1 * 2 ^ 15)
      (funct3 * 2 ^ 12) (omega arith) (omega arith),
  bit_or_disjoint 12
      (imm12 / 2 ^ 5 % 2 ^ 7 * 2 ^ 25 + rs2 * 2 ^ 20 + rs1 * 2 ^ 15 + funct3 * 2 ^ 12)
      (imm12 % 2 ^ 5 * 2 ^ 7) (omega arith) (omega arith),
  bit_or_disjoint 7
      (imm12 / 2 ^ 5 % 2 ^ 7 * 2 ^ 25
        + rs2 * 2 ^ 20
        + rs1 * 2 ^ 15
        + funct3 * 2 ^ 12
        + imm12 % 2 ^ 5 * 2 ^ 7)
      opcode (omega arith) (omega arith),
)

pub encode_b-sum :
    (imm13 rs2 rs1 funct3 opcode : ℕ)
    → rs2 < 32
    → rs1 < 32
    → funct3 < 8
    → opcode < 128
    → encode_b imm13 rs2 rs1 funct3 opcode
      ≡ imm13 / 2 ^ 12 % 2 * 2 ^ 31
        + imm13 / 2 ^ 5 % 2 ^ 6 * 2 ^ 25
        + rs2 * 2 ^ 20
        + rs1 * 2 ^ 15
        + funct3 * 2 ^ 12
        + imm13 / 2 % 2 ^ 4 * 2 ^ 8
        + imm13 / 2 ^ 11 % 2 * 2 ^ 7
        + opcode
unfolding encode_b
encode_b-sum imm13 rs2 rs1 funct3 opcode a b c d = rw (
  bit_and_mask 1 (imm13 >>> 12),
  bit_and_mask 1 (imm13 >>> 11),
  bit_and_mask 6 (imm13 >>> 5),
  bit_and_mask 4 (imm13 >>> 1),
  bit_or_disjoint 31 (imm13 / 2 ^ 12 % 2 * 2 ^ 31) (imm13 / 2 ^ 5 % 2 ^ 6 * 2 ^ 25) (omega arith)
      (omega arith),
  bit_or_disjoint 25 (imm13 / 2 ^ 12 % 2 * 2 ^ 31 + imm13 / 2 ^ 5 % 2 ^ 6 * 2 ^ 25) (rs2 * 2 ^ 20)
      (omega arith) (omega arith),
  bit_or_disjoint 20 (imm13 / 2 ^ 12 % 2 * 2 ^ 31 + imm13 / 2 ^ 5 % 2 ^ 6 * 2 ^ 25 + rs2 * 2 ^ 20)
      (rs1 * 2 ^ 15) (omega arith) (omega arith),
  bit_or_disjoint 15
      (imm13 / 2 ^ 12 % 2 * 2 ^ 31 + imm13 / 2 ^ 5 % 2 ^ 6 * 2 ^ 25 + rs2 * 2 ^ 20 + rs1 * 2 ^ 15)
      (funct3 * 2 ^ 12) (omega arith) (omega arith),
  bit_or_disjoint 12
      (imm13 / 2 ^ 12 % 2 * 2 ^ 31
        + imm13 / 2 ^ 5 % 2 ^ 6 * 2 ^ 25
        + rs2 * 2 ^ 20
        + rs1 * 2 ^ 15
        + funct3 * 2 ^ 12)
      (imm13 / 2 % 2 ^ 4 * 2 ^ 8) (omega arith) (omega arith),
  bit_or_disjoint 8
      (imm13 / 2 ^ 12 % 2 * 2 ^ 31
        + imm13 / 2 ^ 5 % 2 ^ 6 * 2 ^ 25
        + rs2 * 2 ^ 20
        + rs1 * 2 ^ 15
        + funct3 * 2 ^ 12
        + imm13 / 2 % 2 ^ 4 * 2 ^ 8)
      (imm13 / 2 ^ 11 % 2 * 2 ^ 7) (omega arith) (omega arith),
  bit_or_disjoint 7
      (imm13 / 2 ^ 12 % 2 * 2 ^ 31
        + imm13 / 2 ^ 5 % 2 ^ 6 * 2 ^ 25
        + rs2 * 2 ^ 20
        + rs1 * 2 ^ 15
        + funct3 * 2 ^ 12
        + imm13 / 2 % 2 ^ 4 * 2 ^ 8
        + imm13 / 2 ^ 11 % 2 * 2 ^ 7)
      opcode (omega arith) (omega arith),
)

pub encode_u-sum :
    (imm20 rd opcode : ℕ)
    → rd < 32
    → opcode < 128
    → encode_u imm20 rd opcode ≡ imm20 % 2 ^ 20 * 2 ^ 12 + rd * 2 ^ 7 + opcode
unfolding encode_u
encode_u-sum imm20 rd opcode a b = rw (
  bit_and_mask 20 (imm20),
  bit_or_disjoint 12 (imm20 % 2 ^ 20 * 2 ^ 12) (rd * 2 ^ 7) (omega arith) (omega arith),
  bit_or_disjoint 7 (imm20 % 2 ^ 20 * 2 ^ 12 + rd * 2 ^ 7) opcode (omega arith) (omega arith),
)

pub encode_j-sum :
    (imm21 rd opcode : ℕ)
    → rd < 32
    → opcode < 128
    → encode_j imm21 rd opcode
      ≡ imm21 / 2 ^ 20 % 2 * 2 ^ 31
        + imm21 / 2 % 2 ^ 10 * 2 ^ 21
        + imm21 / 2 ^ 11 % 2 * 2 ^ 20
        + imm21 / 2 ^ 12 % 2 ^ 8 * 2 ^ 12
        + rd * 2 ^ 7
        + opcode
unfolding encode_j
encode_j-sum imm21 rd opcode a b = rw (
  bit_and_mask 1 (imm21 >>> 20),
  bit_and_mask 8 (imm21 >>> 12),
  bit_and_mask 1 (imm21 >>> 11),
  bit_and_mask 10 (imm21 >>> 1),
  bit_or_disjoint 31 (imm21 / 2 ^ 20 % 2 * 2 ^ 31) (imm21 / 2 % 2 ^ 10 * 2 ^ 21) (omega arith)
      (omega arith),
  bit_or_disjoint 21 (imm21 / 2 ^ 20 % 2 * 2 ^ 31 + imm21 / 2 % 2 ^ 10 * 2 ^ 21)
      (imm21 / 2 ^ 11 % 2 * 2 ^ 20) (omega arith) (omega arith),
  bit_or_disjoint 20
      (imm21 / 2 ^ 20 % 2 * 2 ^ 31 + imm21 / 2 % 2 ^ 10 * 2 ^ 21 + imm21 / 2 ^ 11 % 2 * 2 ^ 20)
      (imm21 / 2 ^ 12 % 2 ^ 8 * 2 ^ 12) (omega arith) (omega arith),
  bit_or_disjoint 12
      (imm21 / 2 ^ 20 % 2 * 2 ^ 31
        + imm21 / 2 % 2 ^ 10 * 2 ^ 21
        + imm21 / 2 ^ 11 % 2 * 2 ^ 20
        + imm21 / 2 ^ 12 % 2 ^ 8 * 2 ^ 12)
      (rd * 2 ^ 7) (omega arith) (omega arith),
  bit_or_disjoint 7
      (imm21 / 2 ^ 20 % 2 * 2 ^ 31
        + imm21 / 2 % 2 ^ 10 * 2 ^ 21
        + imm21 / 2 ^ 11 % 2 * 2 ^ 20
        + imm21 / 2 ^ 12 % 2 ^ 8 * 2 ^ 12
        + rd * 2 ^ 7)
      opcode (omega arith) (omega arith),
)
