-- ===== src/Bridge/Writes.antt =====
-- do_write on the repository's bridge.
use sisrv_platform.Prelude.{
  ℕ, zero, suc, ◌+◌, ◌≡◌, refl, ap, ◌∙◌, true, false, not, ◌==◌, ◌&&◌, Bool, ok, bit_and, arith,
  max,
}
use sisrv_platform.Rtl.AxiLite.{
  Inputs, Outputs, Registers, Phase, s_idle, s_wr_addr, s_wr_resp, s_rsp, outputs, settled, edge,
}
use sisrv_platform.Bridge.Bench.{
  AssertionFailure, require, Bench, Test, bridge, >>=-ok, >>-ok, pure, ◌>>=◌, ◌>>◌, after_edge,
  after_edges, after_wait,
}
use sisrv_platform.Bridge.Driver.{
  mask32, int, accept_aw, accept_w, handshakes, write_address, write_response, response, do_write,
}
use sisrv_platform.Bridge.Stages.{
  IsReady, ready, ready_form, after_edges_held, reached, reached_at, same, awaiting,
  response-bridge,
}

-- The inputs after the request, and the registers that hold it.
abbrev asked : ℕ → ℕ → ℕ → Inputs → Inputs
asked addr word strb p = record p {
  rst_n = true;
  rvalid = false;
  req_valid = false;
  req_addr = bit_and addr mask32;
  req_we = true;
  req_wdata = bit_and word mask32;
  req_wstrb = strb;
  rsp_ready = true;
  awready = false;
  wready = false;
}

abbrev latched : ℕ → ℕ → ℕ → Phase → Bool → Registers → Registers
latched addr word strb phase done r = record r {
  state = phase;
  addr_reg = bit_and addr mask32;
  wdata_reg = bit_and word mask32;
  wstrb_reg = strb;
  we_reg = true;
  aw_done = done;
  w_done = done;
}

-- A handshake that the bench saw, with the address, the data and the strobes that were asked for.
accept_aw_seen :
    (addr : ℕ) (p : Inputs) (r : Registers) (seen : Outputs) (k : ℕ)
    → accept_aw bridge addr false (record {
      pins = record p { awready = true };
      device = r;
      seen = record seen { awvalid = true; awaddr = bit_and addr mask32 };
      edges = k;
    })
      ≡ (
        ok true,
        record {
          pins = record p { awready = false };
          device = r;
          seen = record seen { awvalid = true; awaddr = bit_and addr mask32 };
          edges = k;
        },
      )
unfolding accept_aw
accept_aw_seen addr p r seen k = rw (same (bit_and addr mask32)) refl

accept_w_seen :
    (word strb : ℕ) (p : Inputs) (r : Registers) (seen : Outputs) (k : ℕ)
    → accept_w bridge word strb false (record {
      pins = record p { wready = true };
      device = r;
      seen = record seen { wvalid = true; wdata = bit_and word mask32; wstrb = strb };
      edges = k;
    })
      ≡ (
        ok true,
        record {
          pins = record p { wready = false };
          device = r;
          seen = record seen { wvalid = true; wdata = bit_and word mask32; wstrb = strb };
          edges = k;
        },
      )
unfolding accept_w
accept_w_seen word strb p r seen k = rw (same (bit_and word mask32)) (rw (same strb) refl)

-- Both handshakes take place at the first edge that offers them.
handshakes-bridge :
    (n addr word strb : ℕ) (p : Inputs) (r : Registers) (seen : Outputs) (k : ℕ)
    → handshakes bridge (suc n) addr word strb false false (record {
      pins = asked addr word strb p;
      device = latched addr word strb s_wr_addr false r;
      seen = seen;
      edges = k;
    })
      ≡ (
        ok (true, true),
        record {
          pins = asked addr word strb p;
          device = latched addr word strb s_wr_resp true r;
          seen = outputs (latched addr word strb s_wr_addr false r);
          edges = suc k;
        },
      )
unfolding handshakes after_edge edge settled outputs
handshakes-bridge n addr word strb p r seen k =
    let next : Registers = latched addr word strb s_wr_resp true r in
    let shown : Outputs = outputs (latched addr word strb s_wr_addr false r) in
    let both : Inputs = record (asked addr word strb p) { awready = true; wready = true } in
    let last : Bool → Bool → Test Registers (Bool × Bool) = λ aw w. elim (aw && w) [
      | true ↦ pure (aw, w)
      | false ↦ handshakes bridge n addr word strb aw w
    ] in
    >>=-ok (accept_aw bridge addr false) (λ aw. accept_w bridge word strb false >>= last aw)
      (record { pins = both; device = next; seen = shown; edges = suc k })
      (accept_aw_seen addr both next shown (suc k))
    ∙ >>=-ok (accept_w bridge word strb false) (last true)
        (record {
          pins = record both { awready = false };
          device = next;
          seen = shown;
          edges = suc k;
        })
        (accept_w_seen word strb (record both { awready = false }) next shown (suc k))

write_address-bridge :
    (addr word strb stall_aw stall_w : ℕ) (p : Inputs) (r : Registers) (seen : Outputs) (k : ℕ)
    → write_address bridge addr word strb stall_aw stall_w (ready p r seen k)
      ≡ reached
          (asked addr word strb p)
          (latched addr word strb s_wr_resp true r)
          (outputs (latched addr word strb s_wr_addr false r))
          (max stall_aw stall_w + k + 2)
unfolding write_address after_wait after_edge edge settled outputs
write_address-bridge addr word strb stall_aw stall_w p r seen k =
    let r' : Registers = latched addr word strb s_wr_addr false r in
    let (shown, e) =
      after_edges_held (max stall_aw stall_w) (asked addr word strb p) r'
        (outputs (record r { state = s_idle })) (suc k) refl in
    let given : ℕ = max stall_aw stall_w + suc k in
    let check : Bool × Bool → Test Registers (Unit {0}) =
      λ done. require (done.0 && done.1) AssertionFailure.handshake_failed in
    rw e (
      >>=-ok (handshakes bridge 100 addr word strb false false) check
        (record { pins = asked addr word strb p; device = r'; seen = shown; edges = given })
        (handshakes-bridge 99 addr word strb p r shown given)
      ∙ reached_at _ _ _ (omega arith))

-- The inputs around the B beat, and the registers once it was taken.
abbrev offered : ℕ → Inputs → Inputs
offered resp p = record p {
  rst_n = true;
  rvalid = false;
  bvalid = false;
  bresp = resp;
  req_valid = false;
  rsp_ready = true;
}

abbrev taken : ℕ → Phase → Registers → Registers
taken resp phase r = record r { state = phase; rdata_reg = 0; err_reg = not (resp == 0) }

write_response-bridge :
    (stall_b resp : ℕ) (p : Inputs) (r : Registers) (seen : Outputs) (k : ℕ)
    → write_response bridge stall_b resp (record {
      pins = awaiting p;
      device = record r { state = s_wr_resp };
      seen = seen;
      edges = k;
    })
      ≡ reached
          (offered resp p)
          (taken resp s_idle r)
          (outputs (taken resp s_rsp r))
          (stall_b + k + 2)
unfolding write_response after_edges after_wait after_edge edge settled outputs
write_response-bridge zero resp p r seen k = reached_at _ _ _ (omega arith)
write_response-bridge (suc n) resp p r seen k =
    let r' : Registers = record r { state = s_wr_resp } in
    let (shown, e) =
      after_edges_held n (record (awaiting p) { bvalid = false }) r' (outputs r') (suc k) refl in
    rw e (reached_at _ _ _ (omega arith))

-- The bench after a write, and the edges that it took.
abbrev write_done : ℕ → ℕ → ℕ → ℕ → Inputs → Registers → ℕ → Bench Registers
write_done addr word strb resp p r k = record {
  pins = record (awaiting (offered resp (asked addr word strb p))) { rsp_ready = false };
  device = taken resp s_idle (latched addr word strb s_wr_resp true r);
  seen = outputs (taken resp s_idle (latched addr word strb s_wr_resp true r));
  edges = k;
}

write_runs :
    (addr word strb stall_aw stall_w stall_b resp : ℕ) (p : Inputs) (r : Registers) (seen : Outputs)
    (k : ℕ)
    → do_write bridge addr word strb stall_aw stall_w stall_b resp (ready p r seen k) ≡ (
      ok (int (not (resp == 0))),
      write_done addr word strb resp p r (stall_b + (max stall_aw stall_w + k + 2) + 2 + 101),
    )
unfolding do_write
write_runs addr word strb stall_aw stall_w stall_b resp p r seen k =
    let held : Registers = latched addr word strb s_wr_resp true r in
    let waiting : Outputs = outputs (latched addr word strb s_wr_addr false r) in
    let error : ℕ × ℕ → Test Registers ℕ = λ x. pure (x.1) in
    let stalls : ℕ = max stall_aw stall_w + k + 2 in
    >>-ok (write_address bridge addr word strb stall_aw stall_w)
      (write_response bridge stall_b resp >> (response bridge >>= error)) (ready p r seen k)
      (write_address-bridge addr word strb stall_aw stall_w p r seen k)
    ∙ >>-ok (write_response bridge stall_b resp) (response bridge >>= error)
        (record { pins = asked addr word strb p; device = held; seen = waiting; edges = stalls })
        (write_response-bridge stall_b resp (asked addr word strb p) held waiting stalls)
    ∙ >>=-ok (response bridge) error _ (
        response-bridge (offered resp (asked addr word strb p)) (taken resp s_idle held)
          (outputs (taken resp s_rsp held)) (stall_b + stalls + 2))

-- A write on a bridge that is ready returns an error exactly when the response of the B beat is not
-- OKAY, whatever the address, the data, the strobes and the stalls; the bridge is ready again, after
-- 105 edges and those of the stalls.
pub do_write-bridge :
    (addr word strb stall_aw stall_w stall_b resp : ℕ) (b : Bench Registers)
    → IsReady b
    → ((do_write bridge addr word strb stall_aw stall_w stall_b resp b).0
        ≡ ok (int (not (resp == 0))))
      × IsReady (do_write bridge addr word strb stall_aw stall_w stall_b resp b).1
      × ((do_write bridge addr word strb stall_aw stall_w stall_b resp b).1.edges
          ≡ b.edges + max stall_aw stall_w + stall_b + 105)
do_write-bridge addr word strb stall_aw stall_w stall_b resp b h =
    let e =
      ap (do_write bridge addr word strb stall_aw stall_w stall_b resp) (ready_form b h)
      ∙ write_runs addr word strb stall_aw stall_w stall_b resp b.pins b.device b.seen b.edges in
    rw e (refl, record { running = refl; no_beat = refl; idle = refl }, omega arith)
