-- ===== src/Rtl/AxiLite/Stable.antt =====
-- The assertions at the end of rtl/bus/sisAxiLiteM.sv, as what an edge does to a pending handshake.
use sisrv_platform.Prelude.{true, false, ◌≡◌, arith}
use sisrv_platform.Rtl.AxiLite.{Inputs, Outputs, Registers, outputs, clocked}

-- A channel that is valid and not taken stays valid, with the same payload.
pub record IsHeld (i : Inputs) (o o' : Outputs) : Type 0 where
  pub ar : o.arvalid ≡ true → i.arready ≡ false → (o'.arvalid ≡ true) × (o'.araddr ≡ o.araddr)
  pub aw : o.awvalid ≡ true → i.awready ≡ false → (o'.awvalid ≡ true) × (o'.awaddr ≡ o.awaddr)
  pub w :
      o.wvalid ≡ true
      → i.wready ≡ false
      → (o'.wvalid ≡ true) × (o'.wdata ≡ o.wdata) × (o'.wstrb ≡ o.wstrb)
  pub rsp :
      o.rsp_valid ≡ true
      → i.rsp_ready ≡ false
      → (o'.rsp_valid ≡ true) × (o'.rsp_rdata ≡ o.rsp_rdata) × (o'.rsp_err ≡ o.rsp_err)

-- VALID is stable: in every state of the bridge, a read address, a write address, write data or a
-- response that is valid and is not taken at an edge is valid after it too, and carries the same
-- values.
pub clocked-IsHeld : (i : Inputs) (r : Registers) → IsHeld i (outputs r) (outputs (clocked i r))
unfolding clocked outputs
clocked-IsHeld i r = ground arith
