-- ===== src/Cosim/Programs.antt =====
-- The random programs of verification/cosim/spike_lockstep.py: `PROFILE_CONFIG`,
-- `gen_program_words` and `gen_program_asm`. The random generator is a parameter: `draw i` is the
-- index that the i-th call of `rng.choice` picks.
pub mod Shape
use sisrv_platform.Prelude.{
  ℕ, zero, suc, ◌+◌, Option, none, some, List, [], ◌∷◌, ◌++◌, map, Text, codes, format_08x, get_or,
  ◌==◌, if◌then◌else◌,
}

pub data Profile : Type 0 where
  rv32im rv32imac rv32imac_u_pmp : Profile

pub record ProfileConfig : Type 0 where
  pub march : Text
  pub spike_isa : Text
  pub spike_priv : Option Text
  pub spike_pmpregions : Option Text

unfoldable pub profile_config : Profile → ProfileConfig
profile_config rv32im = record {
  march = codes "rv32im_zicsr";
  spike_isa = codes "rv32im_zicsr";
  spike_priv = none;
  spike_pmpregions = none;
}
profile_config rv32imac = record {
  march = codes "rv32imac_zicsr";
  spike_isa = codes "rv32imac_zicsr";
  spike_priv = none;
  spike_pmpregions = none;
}
profile_config rv32imac_u_pmp = record {
  march = codes "rv32imac_zicsr";
  spike_isa = codes "rv32imac_zicsr";
  spike_priv = some (codes "mu");
  spike_pmpregions = some (codes "8");
}

abbrev pub nop : ℕ
nop = 0x0000_0013

abbrev pub store_x3 : ℕ
store_x3 = 0x0030_2023

abbrev pub tail_loop : ℕ
tail_loop = 0x0000_006f

abbrev pub word_ops : List ℕ
word_ops = nop ∷ 0x0010_0093 ∷ 0x0020_8133 ∷ store_x3 ∷ []

-- The loop over n_insn, with the rounds left and the number of the next draw.
unfoldable pub draw_words : (ℕ → ℕ) → ℕ → ℕ → List ℕ
draw_words draw zero i = []
draw_words draw (suc left) i =
    let op = get_or word_ops (draw i) nop in
    (if op == store_x3 then nop else op) ∷ draw_words draw left (i + 1)

unfoldable pub gen_program_words : (ℕ → ℕ) → ℕ → List ℕ
gen_program_words draw n_insn = draw_words draw n_insn 0 ++ tail_loop ∷ []

abbrev pub preamble : Profile → List Text
preamble rv32imac_u_pmp =
    codes ".option push"
    ∷ codes ".option rvc"
    ∷ codes "li x4, -1"
    ∷ codes "csrw pmpaddr0, x4"
    ∷ codes "li x4, 0x1f"
    ∷ codes "csrw pmpcfg0, x4"
    ∷ codes "la x4, 1f"
    ∷ codes "csrw mepc, x4"
    ∷ codes "csrr x4, mstatus"
    ∷ codes "li x5, 0xffffe7ff"
    ∷ codes "and x4, x4, x5"
    ∷ codes "csrw mstatus, x4"
    ∷ codes "mret"
    ∷ codes "1:"
    ∷ codes "li x4, 0x80000000"
    ∷ codes "li x5, 1"
    ∷ codes "li x6, 2"
    ∷ codes "sw x0, 0(x4)"
    ∷ []
preamble _ =
    codes ".option push"
    ∷ codes ".option rvc"
    ∷ codes "li x4, 0x80000000"
    ∷ codes "li x5, 1"
    ∷ codes "li x6, 2"
    ∷ codes "sw x0, 0(x4)"
    ∷ []

abbrev pub asm_ops : List Text
asm_ops =
    codes "addi x1, x1, 1"
    ∷ codes "addi x2, x2, -1"
    ∷ codes "add x3, x1, x2"
    ∷ codes "xor x6, x6, x5"
    ∷ codes "mul x7, x5, x6"
    ∷ codes "lw x8, 0(x4)"
    ∷ codes "sw x8, 4(x4)"
    ∷ codes "amoadd.w x0, x5, (x4)"
    ∷ codes "lr.w x9, (x4)"
    ∷ codes "sc.w x10, x5, (x4)"
    ∷ codes "c.nop"
    ∷ codes "c.addi x8, 1"
    ∷ codes "c.mv x9, x8"
    ∷ []

unfoldable pub draw_lines : (ℕ → ℕ) → ℕ → ℕ → List Text
draw_lines draw zero i = []
draw_lines draw (suc left) i = get_or asm_ops (draw i) [] ∷ draw_lines draw left (i + 1)

abbrev pub word_line : ℕ → Text
word_line word = codes ".word 0x" ++ format_08x word

unfoldable pub gen_program_asm : (ℕ → ℕ) → ℕ → Profile → List Text
gen_program_asm draw n_insn rv32im = map word_line (gen_program_words draw n_insn)
gen_program_asm draw n_insn profile =
    preamble profile ++ (draw_lines draw n_insn 0 ++ (codes "j ." ∷ codes ".option pop" ∷ []))
