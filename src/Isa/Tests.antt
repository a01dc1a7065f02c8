-- ===== src/Isa/Tests.antt =====
-- Encodings and results that the tests name, and the theorems of the reference models at them.
use sisrv_platform.Prelude.{
  ℕ, ◌%◌, ◌^◌, ◌<◌, ◌≡◌, refl, true, some, none, ◌==◌, if◌then◌else◌, arith,
}
use sisrv_platform.Isa.Decode.{
  sign_extend, encode_r, encode_i, encode_s, encode_b, encode_u, encode_j, is_alu_imm_legal,
  is_alu_reg_legal, is_legal_parts, is_rv32im_legal, op_alu_reg, op_jal,
}
use sisrv_platform.Isa.Decode.Fields.{InFields}
use sisrv_platform.Isa.Alu.{to_signed32, alu_masked, alu_ref, alu_slt, alu_sra, apply_and_check}
use sisrv_platform.Isa.Pmp.{
  PmpState, napot_mask, entry_cfg_shift, entry_addr_shift, set_entry, set_harness_entry0,
  clear_entries,
}
use sisrv_platform.Isa.Pmp.Registers.{cfg_entry, addr_entry, IsDriven, set_entry-table}
use sisrv_platform.Isa.Decompress.{
  Coverage, count_quadrant, fc_note, enc_c0_addi4spn, enc_c_nop, enc_c_addi, enc_c_li, enc_c_mv,
  enc_c_add,
}
use sisrv_platform.Isa.Decompress.Encodings.{addi4spn_imm, rdp_of, quadrant, enc_c0_addi4spn-fields}

program : Unit {0}
unfolding sign_extend encode_r encode_i encode_s encode_b encode_u encode_j is_alu_imm_legal
    is_alu_reg_legal is_legal_parts is_rv32im_legal to_signed32 alu_masked alu_ref apply_and_check
    napot_mask entry_cfg_shift entry_addr_shift set_entry set_harness_entry0 clear_entries
    count_quadrant fc_note enc_c0_addi4spn enc_c_nop enc_c_addi enc_c_li enc_c_mv enc_c_add
program = tt

-- add x3, x1, x2 and jal x1, 0xFF7FE.
encode_add : encode_r 0 2 1 0 3 op_alu_reg ≡ 0x0020_81b3
unfolding program
encode_add = refl

encode_jump : encode_j 0xF_F7FE 1 op_jal ≡ 0x7FEF_F0EF
unfolding program
encode_jump = refl

sign_extend_minus_one : sign_extend 0xFFF 12 ≡ 0xFFFF_FFFF
unfolding program
sign_extend_minus_one = refl

shift_of_minus_eight : alu_ref 0xFFFF_FFF8 34 alu_sra ≡ 0xFFFF_FFFE
unfolding program
shift_of_minus_eight = refl

lowest_below_zero : alu_ref 0x8000_0000 0 alu_slt ≡ 1
unfolding program
lowest_below_zero = refl

napot_16_bytes : napot_mask 0x2000_0001 ≡ 0xFFFF_FFFC
unfolding program
napot_16_bytes = refl

compressed_add : enc_c_add 5 6 ≡ 0x929a
unfolding program
compressed_add = refl

misaligned_addi4spn : enc_c0_addi4spn 6 1 ≡ none
unfolding program
misaligned_addi4spn = refl

abbrev operands : InFields 2 1 5 3 op_alu_reg
operands = omega arith

legal_word : is_rv32im_legal 0x0020_81b3 ≡ true
unfolding program
legal_word = refl

abbrev cleared : PmpState
cleared = record { cfg_shadow = 0; addr_shadow = 0; pmpcfg = 0; pmpaddr = 0 }

set_entry-table_example :
    (cfg_entry 1 (set_entry 1 0x1B 0x2000_0000 cleared)
      ≡ (if 1 == 1 then 0x1B % 2 ^ 8 else cfg_entry 1 cleared))
    × (addr_entry 1 (set_entry 1 0x1B 0x2000_0000 cleared)
        ≡ (if 1 == 1 then 0x2000_0000 % 2 ^ 32 else addr_entry 1 cleared))
    × IsDriven (set_entry 1 0x1B 0x2000_0000 cleared)
set_entry-table_example =
    set_entry-table 1 0x1B 0x2000_0000 1 cleared (record { cfg_driven = refl; addr_driven = refl })

enc_c0_addi4spn-fields_example :
    (c : ℕ) × (enc_c0_addi4spn 0x3FC 5 ≡ some c)
    × (addi4spn_imm c ≡ 0x3FC)
    × (rdp_of c ≡ 5)
    × (quadrant c ≡ 0)
    × (c < 2 ^ 16)
enc_c0_addi4spn-fields_example =
    enc_c0_addi4spn-fields 0x3FC 5 (omega arith) (omega arith) (omega arith) (omega arith)

abbrev no_coverage : Coverage
no_coverage = record {
  quad0 = 0;
  quad1 = 0;
  quad2 = 0;
  uncompressed = 0;
  illegal = 0;
  legal_compressed = 0;
}
