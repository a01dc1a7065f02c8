-- ===== src/Isa/Decompress.antt =====
-- tb/cocotb/test_decompress.py: the encoders of compressed instructions, and the coverage bins.
pub mod Encodings
use sisrv_platform.Prelude.{
  ℕ, ◌+◌, ◌-◌, ◌*◌, ◌^◌, Bool, true, false, ◌&&◌, not, Option, none, some, ◌==◌, if◌then◌else◌,
  bit_and, bit_or, ◌<<<◌, ◌>>>◌,
}

-- The bins of FC.
pub record Coverage : Type 0 where
  pub quad0 : ℕ
  pub quad1 : ℕ
  pub quad2 : ℕ
  pub uncompressed : ℕ
  pub illegal : ℕ
  pub legal_compressed : ℕ

-- FC[{0: "quad0", 1: "quad1", 2: "quad2"}.get(q, "quad0")] += 1
unfoldable pub count_quadrant : ℕ → Coverage → Coverage
count_quadrant q fc =
    if q == 1
    then record fc { quad1 = fc.quad1 + 1 }
    else if q == 2
    then record fc { quad2 = fc.quad2 + 1 }
    else record fc { quad0 = fc.quad0 + 1 }

unfoldable pub fc_note : ℕ → Bool → Bool → Coverage → Coverage
fc_note c_instr is_illegal is_c fc =
    let q = bit_and c_instr 0x3 in
    if not is_c
    then record fc { uncompressed = fc.uncompressed + 1 }
    else if is_illegal
    then record fc { illegal = fc.illegal + 1 }
    else count_quadrant q (record fc { legal_compressed = fc.legal_compressed + 1 })

-- The assertion fails to nothing.
unfoldable pub enc_c0_addi4spn : ℕ → ℕ → Option ℕ
enc_c0_addi4spn nzuimm rdp =
    let c10_7 = bit_and (nzuimm >>> 6) 0xF in
    let c12_11 = bit_and (nzuimm >>> 4) 0x3 in
    let c5 = bit_and (nzuimm >>> 3) 1 in
    let c6 = bit_and (nzuimm >>> 2) 1 in
    let rdp_enc = bit_and rdp 0x7 in
    let word =
      bit_or
        (bit_or (bit_or (bit_or (bit_or (c12_11 <<< 11) (c10_7 <<< 7)) (c6 <<< 6)) (c5 <<< 5))
          (rdp_enc <<< 2))
        0x0 in
    if bit_and nzuimm 0x3 == 0 && not (nzuimm == 0) then some word else none

unfoldable pub enc_c_nop : ℕ
enc_c_nop = 0x0001

unfoldable pub enc_c_addi : ℕ → ℕ → ℕ
enc_c_addi rd imm6 =
    let imm = bit_and imm6 0x3F in
    bit_or (bit_or (bit_or ((imm >>> 5) <<< 12) (bit_and rd 0x1F <<< 7)) (bit_and imm 0x1F <<< 2))
      0x1

unfoldable pub enc_c_li : ℕ → ℕ → ℕ
enc_c_li rd imm6 =
    let imm = bit_and imm6 0x3F in
    bit_or
      (bit_or (bit_or (bit_or (0b010 <<< 13) ((imm >>> 5) <<< 12)) (bit_and rd 0x1F <<< 7))
        (bit_and imm 0x1F <<< 2))
      0x1

unfoldable pub enc_c_mv : ℕ → ℕ → ℕ
enc_c_mv rd rs2 =
    bit_or
      (bit_or (bit_or (bit_or (0b100 <<< 13) (0 <<< 12)) (bit_and rd 0x1F <<< 7))
        (bit_and rs2 0x1F <<< 2))
      0x2

unfoldable pub enc_c_add : ℕ → ℕ → ℕ
enc_c_add rd rs2 =
    bit_or
      (bit_or (bit_or (bit_or (0b100 <<< 13) (1 <<< 12)) (bit_and rd 0x1F <<< 7))
        (bit_and rs2 0x1F <<< 2))
      0x2
