-- ===== src/Bridge/Driver.antt =====
-- tb/cocotb/test_axil_bridge.py: reset_dut, do_read and do_write, on any device.
use sisrv_platform.Prelude.{ℕ, zero, suc, max, Bool, true, false, ◌&&◌, ◌==◌, bit_and}
use sisrv_platform.Rtl.AxiLite.{Inputs}
use sisrv_platform.Bridge.Bench.{
  Dut, AssertionFailure, Test, ◌>>=◌, ◌>>◌, pure, require, drive, read, rising_edge, stall,
  wait_for,
}

abbrev pub mask32 : ℕ
mask32 = 0xFFFF_FFFF

-- int(dut.port.value) of a port of one bit
abbrev pub int : Bool → ℕ
int true = 1
int false = 0

-- Every input port at 0.
abbrev pub quiet : Inputs
quiet = record {
  rst_n = false;
  req_valid = false;
  req_addr = 0;
  req_we = false;
  req_wdata = 0;
  req_wstrb = 0;
  rsp_ready = false;
  awready = false;
  wready = false;
  bvalid = false;
  bresp = 0;
  arready = false;
  rvalid = false;
  rdata = 0;
  rresp = 0;
}

-- if not aw_done: dut.awready.value = 1
abbrev pub offer_aw : Bool → Inputs → Inputs
offer_aw true p = p
offer_aw false p = record p { awready = true }

-- if not w_done: dut.wready.value = 1
abbrev pub offer_w : Bool → Inputs → Inputs
offer_w true p = p
offer_w false p = record p { wready = true }

module _ (d : Dut) where
  open d use {State}

  unfoldable pub reset_dut : Test State (Unit {0})
  reset_dut = do
    drive (λ _. quiet)
    rising_edge d
    rising_edge d
    drive (λ p. record p { rst_n = true })
    rising_edge d

  -- The read request, up to the R handshake.
  unfoldable pub read_address : ℕ → ℕ → Test State (Unit {0})
  read_address addr stall_ar = do
    drive (λ p. record p {
      req_valid = true;
      req_addr = bit_and addr mask32;
      req_we = false;
      req_wstrb = 0;
      rsp_ready = true;
    })
    wait_for d (λ o. o.req_ready) 100
    drive (λ p. record p { req_valid = false })
    drive (λ p. elim stall_ar [ zero ↦ p | suc _ ↦ record p { arready = false } ])
    stall d stall_ar
    drive (λ p. record p { arready = true })
    wait_for d (λ o. o.arvalid) 100
    arvalid ← read (λ o. o.arvalid)
    require arvalid AssertionFailure.arvalid_never
    araddr ← read (λ o. o.araddr)
    require (araddr == bit_and addr mask32) AssertionFailure.araddr_mismatch
    drive (λ p. record p { arready = false })
    rising_edge d

  -- The R handshake.
  unfoldable pub read_data : ℕ → ℕ → ℕ → Test State (Unit {0})
  read_data stall_r rdata rresp = do
    drive (λ p. elim stall_r [ zero ↦ p | suc _ ↦ record p { rvalid = false } ])
    stall d stall_r
    drive (λ p. record p { rvalid = true; rdata = bit_and rdata mask32; rresp = rresp })
    wait_for d (λ o. o.rready) 100
    drive (λ p. record p { rvalid = false })
    rising_edge d

  -- The response of the core bus: its data and its error flag.
  unfoldable pub response : Test State (ℕ × ℕ)
  response = do
    wait_for d (λ o. o.rsp_valid) 100
    result ← read (λ o. o.rsp_rdata)
    error ← read (λ o. o.rsp_err)
    drive (λ p. record p { rsp_ready = true })
    rising_edge d
    drive (λ p. record p { rsp_ready = false })
    pure (result, int error)

  unfoldable pub do_read : ℕ → ℕ → ℕ → ℕ → ℕ → Test State (ℕ × ℕ)
  do_read addr stall_ar stall_r rdata rresp = do
    read_address addr stall_ar
    read_data stall_r rdata rresp
    response

  -- An AW handshake that the last edge showed: its address is checked and `awready` is dropped.
  unfoldable pub accept_aw : ℕ → Bool → Test State Bool
  accept_aw addr true b = pure true b
  accept_aw addr false b = elim (b.seen.awvalid && b.pins.awready) [
    | false ↦ pure false b
    | true ↦
        (do
          require (b.seen.awaddr == bit_and addr mask32) AssertionFailure.awaddr_mismatch
          drive (λ p. record p { awready = false })
          pure true)
          b
  ]

  -- A W handshake that the last edge showed.
  unfoldable pub accept_w : ℕ → ℕ → Bool → Test State Bool
  accept_w data_in strb true b = pure true b
  accept_w data_in strb false b = elim (b.seen.wvalid && b.pins.wready) [
    | false ↦ pure false b
    | true ↦
        (do
          require (b.seen.wdata == bit_and data_in mask32) AssertionFailure.wdata_mismatch
          require (b.seen.wstrb == strb) AssertionFailure.wstrb_mismatch
          drive (λ p. record p { wready = false })
          pure true)
          b
  ]

  -- The AW and W handshakes, in any order: `aw_done` and `w_done` after at most so many edges.
  unfoldable pub handshakes : ℕ → ℕ → ℕ → ℕ → Bool → Bool → Test State (Bool × Bool)
  handshakes zero addr data_in strb aw_done w_done = pure (aw_done, w_done)
  handshakes (suc n) addr data_in strb aw_done w_done = do
    drive (offer_aw aw_done)
    drive (offer_w w_done)
    rising_edge d
    aw ← accept_aw addr aw_done
    w ← accept_w data_in strb w_done
    elim (aw && w) [ true ↦ pure (aw, w) | false ↦ handshakes n addr data_in strb aw w ]

  -- The write request, up to the B handshake.
  unfoldable pub write_address : ℕ → ℕ → ℕ → ℕ → ℕ → Test State (Unit {0})
  write_address addr data_in strb stall_aw stall_w = do
    drive (λ p. record p {
      req_valid = true;
      req_addr = bit_and addr mask32;
      req_we = true;
      req_wdata = bit_and data_in mask32;
      req_wstrb = strb;
      rsp_ready = true;
    })
    wait_for d (λ o. o.req_ready) 100
    drive (λ p. record p { req_valid = false })
    drive (λ p. record p { awready = false; wready = false })
    stall d (max stall_aw stall_w)
    (aw_done, w_done) ← handshakes 100 addr data_in strb false false
    require (aw_done && w_done) AssertionFailure.handshake_failed

  -- The B handshake.
  unfoldable pub write_response : ℕ → ℕ → Test State (Unit {0})
  write_response stall_b bresp = do
    drive (λ p. elim stall_b [ zero ↦ p | suc _ ↦ record p { bvalid = false } ])
    stall d stall_b
    drive (λ p. record p { bvalid = true; bresp = bresp })
    wait_for d (λ o. o.bready) 100
    drive (λ p. record p { bvalid = false })
    rising_edge d

  unfoldable pub do_write : ℕ → ℕ → ℕ → ℕ → ℕ → ℕ → ℕ → Test State ℕ
  do_write addr data_in strb stall_aw stall_w stall_b bresp = do
    write_address addr data_in strb stall_aw stall_w
    write_response stall_b bresp
    (_, error) ← response
    pure error
