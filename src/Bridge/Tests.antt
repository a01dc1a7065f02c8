-- ===== src/Bridge/Tests.antt =====
-- Runs of the driver on the repository's bridge, and the theorems about it at concrete inputs.
use sisrv_platform.Prelude.{
  ℕ, ◌+◌, ◌≤◌, ◌≡◌, refl, true, false, max, not, ◌==◌, ok, bit_and, [], ◌∷◌, arith,
}
use sisrv_platform.Rtl.AxiLite.{Outputs, Registers, s_rsp, reset_values, outputs, settled, edge}
use sisrv_platform.Bridge.Bench.{Dut, Bench, bridge, after_edge, after_edges, after_wait}
use sisrv_platform.Bridge.Driver.{
  mask32, int, quiet, reset_dut, do_read, do_write, write_address, handshakes, accept_aw, accept_w,
  write_response, response, read_address, read_data,
}
use sisrv_platform.Bridge.Stages.{IsReady}
use sisrv_platform.Bridge.Reads.{do_read-bridge}
use sisrv_platform.Bridge.Writes.{do_write-bridge}
use sisrv_platform.Bridge.Bounds.{do_write-edges, response_unseen}
use sisrv_platform.Bridge.Suite.{read_of, write_of, axil_random_stall_stress}
use sisrv_platform.Bridge.Passes.{axil_random_stall_stress_passes}

abbrev blank : Outputs
blank = record {
  req_ready = false;
  rsp_valid = false;
  rsp_rdata = 0;
  rsp_err = false;
  awvalid = false;
  awaddr = 0;
  wvalid = false;
  wdata = 0;
  wstrb = 0;
  bready = false;
  arvalid = false;
  araddr = 0;
  rready = false;
}

-- Before a reset the registers may hold anything.
abbrev fresh : Bench Registers
fresh = record {
  pins = quiet;
  device = record reset_values { state = s_rsp; rdata_reg = 77; err_reg = true };
  seen = blank;
  edges = 0;
}

-- A read with a stall on both channels and an error response: 8 + 106 edges, after 3 of the reset.
read_runs_example :
    (do_read bridge 0x1000 2 3 0xCAFE 2 (reset_dut bridge fresh).1).0 ≡ ok (0xCAFE, 1)
unfolding do_read read_address read_data response reset_dut after_edge after_edges after_wait edge
    settled outputs
read_runs_example = refl

read_edges : (do_read bridge 0x1000 2 3 0xCAFE 2 (reset_dut bridge fresh).1).1.edges ≡ 114
unfolding do_read read_address read_data response reset_dut after_edge after_edges after_wait edge
    settled outputs
read_edges = refl

write_runs_example : (do_write bridge 0x1000 2 3 3 4 5 2 (reset_dut bridge fresh).1).0 ≡ ok 1
unfolding do_write write_address handshakes accept_aw accept_w write_response response reset_dut
    after_edge after_edges after_wait edge settled outputs
write_runs_example = refl

abbrev waiting : Bench Registers
waiting = record {
  pins = record quiet { rst_n = true };
  device = record reset_values { addr_reg = 0x2000 };
  seen = blank;
  edges = 9;
}

abbrev waiting-IsReady : IsReady waiting
waiting-IsReady = record { running = refl; no_beat = refl; idle = refl }

do_read-bridge_example :
    ((do_read bridge 0x2000 5 3 0x1_A5A5_A5A5 0 waiting).0
      ≡ ok (bit_and 0x1_A5A5_A5A5 mask32, int (not (0 == 0))))
    × IsReady (do_read bridge 0x2000 5 3 0x1_A5A5_A5A5 0 waiting).1
    × ((do_read bridge 0x2000 5 3 0x1_A5A5_A5A5 0 waiting).1.edges ≡ 9 + 5 + 3 + 106)
do_read-bridge_example = do_read-bridge 0x2000 5 3 0x1_A5A5_A5A5 0 waiting waiting-IsReady

do_write-bridge_example :
    ((do_write bridge 0x8000_1000 0x5A5A 5 4 2 3 2 waiting).0 ≡ ok (int (not (2 == 0))))
    × IsReady (do_write bridge 0x8000_1000 0x5A5A 5 4 2 3 2 waiting).1
    × ((do_write bridge 0x8000_1000 0x5A5A 5 4 2 3 2 waiting).1.edges ≡ 9 + max 4 2 + 3 + 105)
do_write-bridge_example = do_write-bridge 0x8000_1000 0x5A5A 5 4 2 3 2 waiting waiting-IsReady

axil_random_stall_stress_passes_example :
    (axil_random_stall_stress bridge
      ((read_of 0x1000_0000 0xFFFF_FFFF 5 0 ∷ write_of 0x8000_0004 17 0 5 3 ∷ [])
        ∷ (read_of 0 1 0 5 ∷ [])
        ∷ [])
      fresh).0
    ≡ ok tt
axil_random_stall_stress_passes_example =
    axil_random_stall_stress_passes
      ((read_of 0x1000_0000 0xFFFF_FFFF 5 0 ∷ write_of 0x8000_0004 17 0 5 3 ∷ [])
        ∷ (read_of 0 1 0 5 ∷ [])
        ∷ [])
      fresh (omega arith)

-- A device that never answers; its state counts the edges, and `rsp_rdata` shows it.
abbrev silent : Dut
silent = record { State = ℕ; rising = λ i n. (record blank { rsp_rdata = n }, n + 1) }

abbrev unanswered : Bench ℕ
unanswered = record { pins = quiet; device = 0; seen = blank; edges = 0 }

do_write-edges_example :
    (do_write silent 0x1000 2 3 3 4 5 2 unanswered).1.edges ≤ 0 + max 3 4 + 5 + 402
do_write-edges_example = do_write-edges silent 0x1000 2 3 3 4 5 2 unanswered

response_unseen_example :
    ((response silent unanswered).0
      ≡ ok (
        (after_edges silent 100 unanswered).seen.rsp_rdata,
        int (after_edges silent 100 unanswered).seen.rsp_err,
      ))
    × ((response silent unanswered).1.edges ≡ 0 + 101)
response_unseen_example = response_unseen silent unanswered (λ i s. refl)
