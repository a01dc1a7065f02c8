-- ===== src/Bridge/Stages.antt =====
-- The parts that reading and writing through the repository's bridge share.
use sisrv_platform.Prelude.{
  ℕ, zero, suc, ◌+◌, ◌≡◌, refl, ap, ◌∙◌, true, false, ◌==◌, Result, ok, arith, ==_iff,
}
use sisrv_platform.Rtl.AxiLite.{Inputs, Outputs, Registers, s_idle, outputs, settled, edge}
use sisrv_platform.Bridge.Bench.{
  AssertionFailure, Bench, bridge, after_edge, after_edges, after_wait,
}
use sisrv_platform.Bridge.Driver.{int, response}

-- Out of reset, with no transaction in flight and no R beat offered.
pub record IsReady (b : Bench Registers) : Type 0 where
  pub running : b.pins.rst_n ≡ true
  pub no_beat : b.pins.rvalid ≡ false
  pub idle : b.device.state ≡ s_idle

-- A bench that is ready, by its other parts.
abbrev pub ready : Inputs → Registers → Outputs → ℕ → Bench Registers
ready p r seen k = record {
  pins = record p { rst_n = true; rvalid = false };
  device = record r { state = s_idle };
  seen = seen;
  edges = k;
}

pub ready_form : (b : Bench Registers) → IsReady b → b ≡ ready b.pins b.device b.seen b.edges
ready_form b h = ground (arith, h.running, h.no_beat, h.idle)

-- While the inputs leave the registers as they are, edges only pass.
pub after_edges_held :
    (n : ℕ) (p : Inputs) (r : Registers) (seen : Outputs) (k : ℕ)
    → edge p r ≡ r
    → (shown : Outputs) × (after_edges bridge n
          (record { pins = p; device = r; seen = seen; edges = k })
        ≡ record { pins = p; device = r; seen = shown; edges = n + k })
unfolding after_edges after_edge
after_edges_held zero p r seen k held =
    (seen, ap (λ (t : ℕ). record { pins = p; device = r; seen = seen; edges = t }) (omega arith))
after_edges_held (suc n) p r seen k held =
    let (shown, e) = after_edges_held n p r (outputs (settled p r)) (suc k) held in
    (
      shown,
      rw held (
          e
          ∙ ap (λ (t : ℕ). record { pins = p; device = r; seen = shown; edges = t }) (omega arith)),
    )

-- A part of the driver that ended normally, and where it left the bench.
abbrev pub reached :
    Inputs → Registers → Outputs → ℕ → Result AssertionFailure (Unit {0}) × Bench Registers
reached p r seen k = (ok tt, record { pins = p; device = r; seen = seen; edges = k })

pub reached_at :
    {j k : ℕ} (p : Inputs) (r : Registers) (seen : Outputs)
    → j ≡ k
    → reached p r seen j ≡ reached p r seen k
reached_at p r seen e = ap (reached p r seen) e

pub same : (n : ℕ) → (n == n) ≡ true
same n = (==_iff n n).1 refl

-- The inputs while an answer is awaited.
abbrev pub awaiting : Inputs → Inputs
awaiting p = record p { rst_n = true; rvalid = false; req_valid = false; rsp_ready = true }

-- The bridge has given its response by the time that the driver looks for it: every round of the
-- loop passes, and the registers still hold the answer.
pub response-bridge :
    (p : Inputs) (r : Registers) (seen : Outputs) (k : ℕ)
    → response bridge
        (record { pins = awaiting p; device = record r { state = s_idle }; seen = seen; edges = k })
      ≡ (
        ok (r.rdata_reg, int r.err_reg),
        record {
          pins = record (awaiting p) { rsp_ready = false };
          device = record r { state = s_idle };
          seen = outputs (record r { state = s_idle });
          edges = k + 101;
        },
      )
unfolding response after_edges after_wait after_edge edge settled outputs
response-bridge p r seen k =
    let left : ℕ → Result AssertionFailure (ℕ × ℕ) × Bench Registers = λ t. (
      ok (r.rdata_reg, int r.err_reg),
      record {
        pins = record (awaiting p) { rsp_ready = false };
        device = record r { state = s_idle };
        seen = outputs (record r { state = s_idle });
        edges = t;
      },
    ) in
    ap left (omega arith)
