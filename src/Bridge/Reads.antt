-- ===== src/Bridge/Reads.antt =====
-- do_read on the repository's bridge.
use sisrv_platform.Prelude.{
  ℕ, zero, suc, ◌+◌, ◌≡◌, refl, ap, ◌∙◌, true, false, not, ◌==◌, Bool, ok, bit_and, arith,
}
use sisrv_platform.Rtl.AxiLite.{
  Inputs, Outputs, Registers, Phase, s_idle, s_rd_addr, s_rd_data, s_rsp, outputs, settled, edge,
}
use sisrv_platform.Bridge.Bench.{Bench, bridge, >>-ok, ◌>>◌, after_edge, after_edges, after_wait}
use sisrv_platform.Bridge.Driver.{mask32, int, read_address, read_data, response, do_read}
use sisrv_platform.Bridge.Stages.{
  IsReady, ready, ready_form, after_edges_held, reached, reached_at, same, awaiting,
  response-bridge,
}

-- The inputs after the request, and the registers that hold it.
abbrev asked : ℕ → Inputs → Inputs
asked addr p = record p {
  rst_n = true;
  rvalid = false;
  req_valid = false;
  req_addr = bit_and addr mask32;
  req_we = false;
  req_wstrb = 0;
  rsp_ready = true;
  arready = false;
}

abbrev latched : ℕ → Phase → Inputs → Registers → Registers
latched addr phase p r = record r {
  state = phase;
  addr_reg = bit_and addr mask32;
  wdata_reg = p.req_wdata;
  wstrb_reg = 0;
  we_reg = false;
}

read_address-bridge :
    (addr stall_ar : ℕ) (p : Inputs) (r : Registers) (seen : Outputs) (k : ℕ)
    → read_address bridge addr stall_ar (ready p r seen k)
      ≡ reached
          (asked addr p)
          (latched addr s_rd_data p r)
          (outputs (latched addr s_rd_data p r))
          (stall_ar + k + 3)
unfolding read_address after_edges after_wait after_edge edge settled outputs
read_address-bridge addr zero p r seen k =
    rw (same (bit_and addr mask32)) (reached_at _ _ _ (omega arith))
read_address-bridge addr (suc n) p r seen k =
    let r' : Registers = latched addr s_rd_addr p r in
    let (shown, e) = after_edges_held n (asked addr p) r' (outputs r') (suc (suc k)) refl in
    rw e (rw (same (bit_and addr mask32)) (reached_at _ _ _ (omega arith)))

-- The inputs around the R beat, and the registers once it was taken.
abbrev offered : ℕ → ℕ → Bool → Inputs → Inputs
offered beat resp valid p = record p {
  rst_n = true;
  rvalid = valid;
  rdata = bit_and beat mask32;
  rresp = resp;
  req_valid = false;
  rsp_ready = true;
}

abbrev taken : ℕ → ℕ → Phase → Registers → Registers
taken beat resp phase r = record r {
  state = phase;
  rdata_reg = bit_and beat mask32;
  err_reg = not (resp == 0);
}

read_data-bridge :
    (stall_r beat resp : ℕ) (p : Inputs) (r : Registers) (seen : Outputs) (k : ℕ)
    → read_data bridge stall_r beat resp (record {
      pins = awaiting p;
      device = record r { state = s_rd_data };
      seen = seen;
      edges = k;
    })
      ≡ reached
          (offered beat resp false p)
          (taken beat resp s_idle r)
          (outputs (taken beat resp s_rsp r))
          (stall_r + k + 2)
unfolding read_data after_edges after_wait after_edge edge settled outputs
read_data-bridge zero beat resp p r seen k = reached_at _ _ _ (omega arith)
read_data-bridge (suc n) beat resp p r seen k =
    let r' : Registers = record r { state = s_rd_data } in
    let (shown, e) = after_edges_held n (awaiting p) r' (outputs r') (suc k) refl in
    rw e (reached_at _ _ _ (omega arith))

-- The bench after a read, and the edges that it took.
abbrev read_done : ℕ → ℕ → ℕ → Inputs → Registers → ℕ → Bench Registers
read_done addr beat resp p r k = record {
  pins = record (awaiting (offered beat resp false (asked addr p))) { rsp_ready = false };
  device = taken beat resp s_idle (latched addr s_rd_data p r);
  seen = outputs (taken beat resp s_idle (latched addr s_rd_data p r));
  edges = k;
}

read_runs :
    (addr stall_ar stall_r beat resp : ℕ) (p : Inputs) (r : Registers) (seen : Outputs) (k : ℕ)
    → do_read bridge addr stall_ar stall_r beat resp (ready p r seen k) ≡ (
      ok (bit_and beat mask32, int (not (resp == 0))),
      read_done addr beat resp p r (stall_r + (stall_ar + k + 3) + 2 + 101),
    )
unfolding do_read
read_runs addr stall_ar stall_r beat resp p r seen k =
    let held : Registers = latched addr s_rd_data p r in
    let answered : Registers = taken beat resp s_rsp held in
    >>-ok (read_address bridge addr stall_ar)
      (read_data bridge stall_r beat resp >> response bridge) (ready p r seen k)
      (read_address-bridge addr stall_ar p r seen k)
    ∙ >>-ok (read_data bridge stall_r beat resp) (response bridge)
        (record {
          pins = asked addr p;
          device = held;
          seen = outputs held;
          edges = stall_ar + k + 3;
        })
        (read_data-bridge stall_r beat resp (asked addr p) held (outputs held) (stall_ar + k + 3))
    ∙ response-bridge (offered beat resp false (asked addr p)) (taken beat resp s_idle held)
        (outputs answered) (stall_r + (stall_ar + k + 3) + 2)

-- A read on a bridge that is ready returns the data of the R beat, masked to 32 bits, and an error
-- exactly when the beat's response is not OKAY, whatever the address and the stalls; the bridge is
-- ready again, after 106 edges and those of the stalls.
pub do_read-bridge :
    (addr stall_ar stall_r beat resp : ℕ) (b : Bench Registers)
    → IsReady b
    → ((do_read bridge addr stall_ar stall_r beat resp b).0
        ≡ ok (bit_and beat mask32, int (not (resp == 0))))
      × IsReady (do_read bridge addr stall_ar stall_r beat resp b).1
      × ((do_read bridge addr stall_ar stall_r beat resp b).1.edges
          ≡ b.edges + stall_ar + stall_r + 106)
do_read-bridge addr stall_ar stall_r beat resp b h =
    let e =
      ap (do_read bridge addr stall_ar stall_r beat resp) (ready_form b h)
      ∙ read_runs addr stall_ar stall_r beat resp b.pins b.device b.seen b.edges in
    rw e (refl, record { running = refl; no_beat = refl; idle = refl }, omega arith)
