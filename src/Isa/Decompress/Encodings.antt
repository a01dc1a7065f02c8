-- ===== src/Isa/Decompress/Encodings.antt =====
-- The operands of an encoded compressed instruction, at the places of the RVC formats, and the
-- bookkeeping of the bins.
use sisrv_platform.Prelude.{
  ℕ, ◌+◌, ◌*◌, ◌/◌, ◌%◌, ◌^◌, ◌<◌, ◌≡◌, ◌≢◌, Bool, true, false, some, ◌==◌, ◌>>>◌, bit_and_mask,
  bit_or_disjoint, bit_or-zero, arith,
}
use sisrv_platform.Isa.Decompress.{
  Coverage, count_quadrant, fc_note, enc_c0_addi4spn, enc_c_addi, enc_c_li, enc_c_mv, enc_c_add,
}

addi4spn_sum : ℕ → ℕ → ℕ
addi4spn_sum nzuimm rdp =
    nzuimm / 2 ^ 4 % 2 ^ 2 * 2 ^ 11
    + nzuimm / 2 ^ 6 % 2 ^ 4 * 2 ^ 7
    + nzuimm / 2 ^ 2 % 2 * 2 ^ 6
    + nzuimm / 2 ^ 3 % 2 * 2 ^ 5
    + rdp % 2 ^ 3 * 2 ^ 2

-- The immediate and the register of C.ADDI4SPN, as the expander reads them: the bits 10:7, 12:11, 5
-- and 6 above two zeros.
abbrev pub addi4spn_imm : ℕ → ℕ
addi4spn_imm c =
    c / 2 ^ 7 % 2 ^ 4 * 2 ^ 6
    + c / 2 ^ 11 % 2 ^ 2 * 2 ^ 4
    + c / 2 ^ 5 % 2 * 2 ^ 3
    + c / 2 ^ 6 % 2 * 2 ^ 2

abbrev pub rdp_of : ℕ → ℕ
rdp_of c = c / 2 ^ 2 % 2 ^ 3

-- The register, the immediate and the quadrant of the CI and CR formats.
abbrev pub ci_rd : ℕ → ℕ
ci_rd c = c / 2 ^ 7 % 2 ^ 5

abbrev pub ci_imm : ℕ → ℕ
ci_imm c = c / 2 ^ 12 % 2 * 2 ^ 5 + c / 2 ^ 2 % 2 ^ 5

abbrev pub cr_rs2 : ℕ → ℕ
cr_rs2 c = c / 2 ^ 2 % 2 ^ 5

abbrev pub quadrant : ℕ → ℕ
quadrant c = c % 2 ^ 2

abbrev pub funct4 : ℕ → ℕ
funct4 c = c / 2 ^ 12

enc_c0_addi4spn-sum :
    (nzuimm rdp : ℕ)
    → nzuimm % 4 ≡ 0
    → nzuimm ≢ 0
    → enc_c0_addi4spn nzuimm rdp ≡ some (addi4spn_sum nzuimm rdp)
unfolding enc_c0_addi4spn addi4spn_sum
enc_c0_addi4spn-sum nzuimm rdp h nz =
    let aligned : ((nzuimm % 2 ^ 2) == 0) ≡ true = ground arith in
    let proper : (nzuimm == 0) ≡ false = ground arith in
    rw (
      bit_and_mask 4 (nzuimm >>> 6),
      bit_and_mask 2 (nzuimm >>> 4),
      bit_and_mask 1 (nzuimm >>> 3),
      bit_and_mask 1 (nzuimm >>> 2),
      bit_and_mask 3 rdp,
      bit_and_mask 2 nzuimm,
      aligned,
      proper,
      bit_or_disjoint 11 (nzuimm / 2 ^ 4 % 2 ^ 2 * 2 ^ 11) (nzuimm / 2 ^ 6 % 2 ^ 4 * 2 ^ 7)
          (omega arith) (omega arith),
      bit_or_disjoint 7 (nzuimm / 2 ^ 4 % 2 ^ 2 * 2 ^ 11 + nzuimm / 2 ^ 6 % 2 ^ 4 * 2 ^ 7)
          (nzuimm / 2 ^ 2 % 2 * 2 ^ 6) (omega arith) (omega arith),
      bit_or_disjoint 6
          (nzuimm / 2 ^ 4 % 2 ^ 2 * 2 ^ 11
            + nzuimm / 2 ^ 6 % 2 ^ 4 * 2 ^ 7
            + nzuimm / 2 ^ 2 % 2 * 2 ^ 6)
          (nzuimm / 2 ^ 3 % 2 * 2 ^ 5) (omega arith) (omega arith),
      bit_or_disjoint 5
          (nzuimm / 2 ^ 4 % 2 ^ 2 * 2 ^ 11
            + nzuimm / 2 ^ 6 % 2 ^ 4 * 2 ^ 7
            + nzuimm / 2 ^ 2 % 2 * 2 ^ 6
            + nzuimm / 2 ^ 3 % 2 * 2 ^ 5)
          (rdp % 2 ^ 3 * 2 ^ 2) (omega arith) (omega arith),
      bit_or-zero (
          nzuimm / 2 ^ 4 % 2 ^ 2 * 2 ^ 11
          + nzuimm / 2 ^ 6 % 2 ^ 4 * 2 ^ 7
          + nzuimm / 2 ^ 2 % 2 * 2 ^ 6
          + nzuimm / 2 ^ 3 % 2 * 2 ^ 5
          + rdp % 2 ^ 3 * 2 ^ 2),
    )

-- For an immediate that is a positive multiple of 4 below 1024, the word of C.ADDI4SPN is one of 16
-- bits in quadrant 0, from which the immediate and the register are read back.
pub enc_c0_addi4spn-fields :
    (nzuimm rdp : ℕ)
    → nzuimm % 4 ≡ 0
    → nzuimm ≢ 0
    → nzuimm < 1024
    → rdp < 8
    → (c : ℕ) × (enc_c0_addi4spn nzuimm rdp ≡ some c)
      × (addi4spn_imm c ≡ nzuimm)
      × (rdp_of c ≡ rdp)
      × (quadrant c ≡ 0)
      × (c < 2 ^ 16)
unfolding addi4spn_sum
enc_c0_addi4spn-fields nzuimm rdp h nz fits fits_rdp = (
  addi4spn_sum nzuimm rdp,
  enc_c0_addi4spn-sum nzuimm rdp h nz,
  omega arith,
  omega arith,
  omega arith,
  omega arith,
)

enc_c_addi-sum :
    (rd imm6 : ℕ)
    → enc_c_addi rd imm6
      ≡ imm6 % 2 ^ 6 / 2 ^ 5 * 2 ^ 12 + rd % 2 ^ 5 * 2 ^ 7 + imm6 % 2 ^ 6 % 2 ^ 5 * 2 ^ 2 + 1
unfolding enc_c_addi
enc_c_addi-sum rd imm6 = rw (
  bit_and_mask 6 (imm6),
  bit_and_mask 5 (rd),
  bit_and_mask 5 (imm6 % 2 ^ 6),
  bit_or_disjoint 12 (imm6 % 2 ^ 6 / 2 ^ 5 * 2 ^ 12) (rd % 2 ^ 5 * 2 ^ 7) (omega arith)
      (omega arith),
  bit_or_disjoint 7 (imm6 % 2 ^ 6 / 2 ^ 5 * 2 ^ 12 + rd % 2 ^ 5 * 2 ^ 7)
      (imm6 % 2 ^ 6 % 2 ^ 5 * 2 ^ 2) (omega arith) (omega arith),
  bit_or_disjoint 2
      (imm6 % 2 ^ 6 / 2 ^ 5 * 2 ^ 12 + rd % 2 ^ 5 * 2 ^ 7 + imm6 % 2 ^ 6 % 2 ^ 5 * 2 ^ 2) 1
      (omega arith) (omega arith),
)

enc_c_li-sum :
    (rd imm6 : ℕ)
    → enc_c_li rd imm6
      ≡ 0b010 * 2 ^ 13
        + imm6 % 2 ^ 6 / 2 ^ 5 * 2 ^ 12
        + rd % 2 ^ 5 * 2 ^ 7
        + imm6 % 2 ^ 6 % 2 ^ 5 * 2 ^ 2
        + 1
unfolding enc_c_li
enc_c_li-sum rd imm6 = rw (
  bit_and_mask 6 (imm6),
  bit_and_mask 5 (rd),
  bit_and_mask 5 (imm6 % 2 ^ 6),
  bit_or_disjoint 13 (0b010 * 2 ^ 13) (imm6 % 2 ^ 6 / 2 ^ 5 * 2 ^ 12) (omega arith) (omega arith),
  bit_or_disjoint 12 (0b010 * 2 ^ 13 + imm6 % 2 ^ 6 / 2 ^ 5 * 2 ^ 12) (rd % 2 ^ 5 * 2 ^ 7)
      (omega arith) (omega arith),
  bit_or_disjoint 7 (0b010 * 2 ^ 13 + imm6 % 2 ^ 6 / 2 ^ 5 * 2 ^ 12 + rd % 2 ^ 5 * 2 ^ 7)
      (imm6 % 2 ^ 6 % 2 ^ 5 * 2 ^ 2) (omega arith) (omega arith),
  bit_or_disjoint 2
      (0b010 * 2 ^ 13
        + imm6 % 2 ^ 6 / 2 ^ 5 * 2 ^ 12
        + rd % 2 ^ 5 * 2 ^ 7
        + imm6 % 2 ^ 6 % 2 ^ 5 * 2 ^ 2)
      1 (omega arith) (omega arith),
)

enc_c_mv-sum : (rd rs2 : ℕ) → enc_c_mv rd rs2 ≡ 32768 + rd % 2 ^ 5 * 2 ^ 7 + rs2 % 2 ^ 5 * 2 ^ 2 + 2
unfolding enc_c_mv
enc_c_mv-sum rd rs2 = rw (
  bit_and_mask 5 (rd),
  bit_and_mask 5 (rs2),
  bit_or_disjoint 12 32768 (rd % 2 ^ 5 * 2 ^ 7) (omega arith) (omega arith),
  bit_or_disjoint 7 (32768 + rd % 2 ^ 5 * 2 ^ 7) (rs2 % 2 ^ 5 * 2 ^ 2) (omega arith) (omega arith),
  bit_or_disjoint 2 (32768 + rd % 2 ^ 5 * 2 ^ 7 + rs2 % 2 ^ 5 * 2 ^ 2) 2 (omega arith)
      (omega arith),
)

enc_c_add-sum :
    (rd rs2 : ℕ) → enc_c_add rd rs2 ≡ 36864 + rd % 2 ^ 5 * 2 ^ 7 + rs2 % 2 ^ 5 * 2 ^ 2 + 2
unfolding enc_c_add
enc_c_add-sum rd rs2 = rw (
  bit_and_mask 5 (rd),
  bit_and_mask 5 (rs2),
  bit_or_disjoint 12 36864 (rd % 2 ^ 5 * 2 ^ 7) (omega arith) (omega arith),
  bit_or_disjoint 7 (36864 + rd % 2 ^ 5 * 2 ^ 7) (rs2 % 2 ^ 5 * 2 ^ 2) (omega arith) (omega arith),
  bit_or_disjoint 2 (36864 + rd % 2 ^ 5 * 2 ^ 7 + rs2 % 2 ^ 5 * 2 ^ 2) 2 (omega arith)
      (omega arith),
)

-- Whatever is given, C.ADDI and C.LI hold the 5 low bits of the register and the 6 low bits of the
-- immediate in quadrant 1, and their leading bits tell the two apart.
pub enc_c_imm-fields :
    (rd imm6 : ℕ)
    → (ci_rd (enc_c_addi rd imm6) ≡ rd % 2 ^ 5)
      × (ci_imm (enc_c_addi rd imm6) ≡ imm6 % 2 ^ 6)
      × (quadrant (enc_c_addi rd imm6) ≡ 1)
      × (enc_c_addi rd imm6 / 2 ^ 13 ≡ 0b000)
      × (ci_rd (enc_c_li rd imm6) ≡ rd % 2 ^ 5)
      × (ci_imm (enc_c_li rd imm6) ≡ imm6 % 2 ^ 6)
      × (quadrant (enc_c_li rd imm6) ≡ 1)
      × (enc_c_li rd imm6 / 2 ^ 13 ≡ 0b010)
enc_c_imm-fields rd imm6 =
    rw (enc_c_addi-sum rd imm6, enc_c_li-sum rd imm6)
      (
        omega arith,
        omega arith,
        omega arith,
        omega arith,
        omega arith,
        omega arith,
        omega arith,
        omega arith,
      )

-- C.MV and C.ADD hold both registers in quadrant 2, and their leading four bits are 8 and 9.
pub enc_c_reg-fields :
    (rd rs2 : ℕ)
    → (ci_rd (enc_c_mv rd rs2) ≡ rd % 2 ^ 5)
      × (cr_rs2 (enc_c_mv rd rs2) ≡ rs2 % 2 ^ 5)
      × (quadrant (enc_c_mv rd rs2) ≡ 2)
      × (funct4 (enc_c_mv rd rs2) ≡ 8)
      × (ci_rd (enc_c_add rd rs2) ≡ rd % 2 ^ 5)
      × (cr_rs2 (enc_c_add rd rs2) ≡ rs2 % 2 ^ 5)
      × (quadrant (enc_c_add rd rs2) ≡ 2)
      × (funct4 (enc_c_add rd rs2) ≡ 9)
enc_c_reg-fields rd rs2 =
    rw (enc_c_mv-sum rd rs2, enc_c_add-sum rd rs2)
      (
        omega arith,
        omega arith,
        omega arith,
        omega arith,
        omega arith,
        omega arith,
        omega arith,
        omega arith,
      )

-- The quadrant bins add up to the legal compressed instructions.
abbrev pub IsBalanced : Coverage → Type 0
IsBalanced fc = fc.quad0 + fc.quad1 + fc.quad2 ≡ fc.legal_compressed

-- The number of instructions that are counted.
abbrev pub noted : Coverage → ℕ
noted fc = fc.uncompressed + fc.illegal + fc.legal_compressed

-- Each instruction is counted in exactly one of the three outcomes, and the quadrants keep adding up
-- to the legal compressed ones.
pub fc_note-IsBalanced :
    (c_instr : ℕ) (is_illegal is_c : Bool) (fc : Coverage)
    → IsBalanced fc
    → IsBalanced (fc_note c_instr is_illegal is_c fc)
      × (noted (fc_note c_instr is_illegal is_c fc) ≡ noted fc + 1)
unfolding fc_note count_quadrant
fc_note-IsBalanced c_instr is_illegal is_c fc h = ground arith
