-- ===== src/Rtl/Decode/Legality.antt =====
-- The words that the decoder and the reference of tb/cocotb/test_decode.py call legal.
use sisrv_platform.Prelude.{
  or_false, ℕ, ◌≡◌, ◌↔◌, inl, inr, Bool-cases, Bool, true, false, ◌||◌, arith,
}
use sisrv_platform.Isa.Decode.{is_rv32im_legal, is_legal_parts, is_alu_imm_legal, is_alu_reg_legal}
use sisrv_platform.Isa.Decode.Legal.{is_rv32im_legal-parts}
use sisrv_platform.Rtl.Decode.{
  opcode, funct3, funct7, atomic_funct5, slice, legal_base, legal_atomic, is_legal,
}

legal_base-is_legal_parts :
    (op f3 f7 csr : ℕ) → legal_base true op f3 f7 csr ≡ is_legal_parts op f3 f7 csr
unfolding legal_base is_legal_parts is_alu_imm_legal is_alu_reg_legal
legal_base-is_legal_parts op f3 f7 csr = ground arith

-- The decoder calls legal what the reference does, and the atomic instructions where they are
-- enabled.
is_legal-is_rv32im_legal :
    (enable_a : Bool) (instr : ℕ)
    → is_legal true enable_a instr ≡ (
        is_rv32im_legal instr
        || legal_atomic enable_a (opcode instr) (funct3 instr) (atomic_funct5 instr))
unfolding is_legal
is_legal-is_rv32im_legal enable_a instr = rw (
  is_rv32im_legal-parts instr,
  legal_base-is_legal_parts (opcode instr) (funct3 instr) (funct7 instr) (slice instr 20 12),
)

atomic_parts :
    (op f3 f7 csr f5 : ℕ) → legal_atomic true op f3 f5 ≡ true → is_legal_parts op f3 f7 csr ≡ false
unfolding legal_atomic is_legal_parts
atomic_parts op f3 f7 csr f5 h = ground arith

-- With RV32A enabled, as by default, the decoder and the reference agree on a word exactly if the
-- word is not a legal atomic instruction.
pub is_legal-is_rv32im_legal_iff :
    (instr : ℕ)
    → (is_legal true true instr ≡ is_rv32im_legal instr)
      ↔ (legal_atomic true (opcode instr) (funct3 instr) (atomic_funct5 instr) ≡ false)
is_legal-is_rv32im_legal_iff instr =
    let atomic : Bool = legal_atomic true (opcode instr) (funct3 instr) (atomic_funct5 instr) in
    elim (Bool-cases atomic) [
      | inl legal ↦
          let refused : is_rv32im_legal instr ≡ false = rw (is_rv32im_legal-parts instr) (
            atomic_parts (opcode instr) (funct3 instr) (funct7 instr) (slice instr 20 12)
              (atomic_funct5 instr) legal) in
          rw (is_legal-is_rv32im_legal true instr, refused, legal) ((λ e. (cc)), (λ e. (cc)))
      | inr other ↦ (
        λ _. other,
        λ _. rw (is_legal-is_rv32im_legal true instr, other) (or_false (is_rv32im_legal instr)),
      )
    ]
