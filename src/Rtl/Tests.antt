-- ===== src/Rtl/Tests.antt =====
-- The hardware modules at concrete inputs.
use sisrv_platform.Prelude.{
  ◌+◌, ◌*◌, ◌/◌, ◌^◌, ◌≡◌, ◌↔◌, refl, true, false, not, ◌&&◌, ◌==◌, [], ◌∷◌, arith,
}
use sisrv_platform.Isa.Alu.{apply_and_check}
use sisrv_platform.Isa.Decode.{is_rv32im_legal, is_legal_parts}
use sisrv_platform.Rtl.AxiLite.{Inputs, Registers, s_wr_addr, reset_values, outputs, clocked}
use sisrv_platform.Rtl.AxiLite.Stable.{IsHeld, clocked-IsHeld}
use sisrv_platform.Rtl.AxiLite.Served.{
  write_request, aw, w, b, response, transfers, run_transfers, IsServed,
}
use sisrv_platform.Rtl.AxiLite.Order.{run_transfers-IsServed}
use sisrv_platform.Rtl.Alu.Reference.{sis_alu, apply_and_check-sis_alu}
use sisrv_platform.Rtl.Decode.{opcode, funct3, atomic_funct5, legal_base, legal_atomic, is_legal}
use sisrv_platform.Rtl.Decode.Legality.{is_legal-is_rv32im_legal_iff}
use sisrv_platform.Rtl.RegFile.Suite.{Bench, Round, random_read_write}
use sisrv_platform.Rtl.RegFile.Passes.{random_read_write_passes}
use sisrv_platform.Rtl.Pmp.{PmpEntry, Access, napot_matches}
use sisrv_platform.Rtl.Pmp.Napot.{register, napot_matches-register}

-- A write whose data are taken before its address, and its answer.
abbrev offer : Inputs
offer = record {
  rst_n = true;
  req_valid = true;
  req_addr = 0x8000_0000;
  req_we = true;
  req_wdata = 7;
  req_wstrb = 0xF;
  rsp_ready = true;
  awready = false;
  wready = true;
  bvalid = true;
  bresp = 2;
  arready = false;
  rvalid = false;
  rdata = 0;
  rresp = 0;
}

write_transfers :
    run_transfers reset_values
      (offer ∷ offer ∷ record offer { awready = true } ∷ offer ∷ offer ∷ [])
    ≡ write_request 0x8000_0000 7 0xF ∷ w 7 0xF ∷ aw 0x8000_0000 ∷ b 2 ∷ response 0 true ∷ []
unfolding run_transfers transfers outputs clocked
write_transfers = refl

run_transfers-IsServed_example :
    IsServed (run_transfers reset_values (offer ∷ offer ∷ record offer { awready = true } ∷ []))
run_transfers-IsServed_example =
    run_transfers-IsServed (offer ∷ offer ∷ record offer { awready = true } ∷ [])

abbrev pending : Registers
pending = record reset_values { state = s_wr_addr; addr_reg = 0x8000_0000; w_done = true }

clocked-IsHeld_example : IsHeld offer (outputs pending) (outputs (clocked offer pending))
clocked-IsHeld_example = clocked-IsHeld offer pending

apply_and_check-sis_alu_example : apply_and_check sis_alu 0x1_8000_0000 37 0b1101 ≡ true
apply_and_check-sis_alu_example = apply_and_check-sis_alu 0x1_8000_0000 37 0b1101

-- amoadd.w x0, x0, (x0)
amoadd_disagrees : (is_legal true true 0x0000_202F ≡ true) × (is_rv32im_legal 0x0000_202F ≡ false)
unfolding is_legal legal_base legal_atomic is_rv32im_legal is_legal_parts
amoadd_disagrees = (refl, refl)

is_legal-is_rv32im_legal_iff_example :
    (is_legal true true 0x0000_202F ≡ is_rv32im_legal 0x0000_202F) ↔ (
      legal_atomic true (opcode 0x0000_202F) (funct3 0x0000_202F) (atomic_funct5 0x0000_202F)
      ≡ false)
is_legal-is_rv32im_legal_iff_example = is_legal-is_rv32im_legal_iff 0x0000_202F

abbrev unset : Bench
unset = record {
  ports = record {
    rs1_addr = 0;
    rs2_addr = 0;
    wr_en = false;
    rd_addr = 0;
    rd_data = 0;
    dbg_en = true;
    dbg_we = true;
    dbg_addr = 3;
    dbg_wdata = 9;
  };
  regs = λ k. k + 100;
}

abbrev first_round : Round
first_round = record { addr = 5; word = 0xFFFF_FFFF; rs1 = 5; rs2 = 0 }

abbrev zero_round : Round
zero_round = record { addr = 0; word = 12; rs1 = 0; rs2 = 5 }

random_read_write_passes_example : random_read_write (first_round ∷ zero_round ∷ []) unset ≡ true
random_read_write_passes_example = random_read_write_passes (first_round ∷ zero_round ∷ []) unset (
  record { addr_fits = omega arith; rs1_fits = omega arith; rs2_fits = omega arith },
  (record { addr_fits = omega arith; rs1_fits = omega arith; rs2_fits = omega arith }, tt),
)

-- The upper half of the address space: its end wraps, and it matches nothing.
napot_matches-register_example :
    napot_matches 0x8000_0000 (register 28 1)
    ≡ (0x8000_0000 / (8 * 2 ^ 28) == 1 && not ((1 + 1) * (8 * 2 ^ 28) == 2 ^ 32))
napot_matches-register_example = napot_matches-register 28 1 0x8000_0000 (omega arith)

abbrev write_ram : Access
write_ram = record { byte_addr = 0x8000_0000; priv = 0; req_r = false; req_w = true; req_x = false }

-- Entry 0 is off, entry 1 grants reading of a page.
abbrev page : PmpEntry
page = record { cfg = 0x19; addr = 0x2000_01FF }

abbrev off : PmpEntry
off = record { cfg = 0; addr = 0x1FFF }
