-- ===== src/Rtl/AxiLite.antt =====
-- rtl/bus/sisAxiLiteM.sv: the AXI4-Lite master bridge, as its ports, its registers and what one
-- rising edge of the clock does to them. A wire of one bit is a Bool, a bus is a number that fits it.
pub mod Stable
pub mod Served
pub mod Order
use sisrv_platform.Prelude.{ℕ, Bool, true, false, not, ◌&&◌, ◌||◌, ◌==◌, if◌then◌else◌}

-- The ports that are driven from outside.
pub record Inputs : Type 0 where
  pub rst_n : Bool
  pub req_valid : Bool
  pub req_addr : ℕ
  pub req_we : Bool
  pub req_wdata : ℕ
  pub req_wstrb : ℕ
  pub rsp_ready : Bool
  pub awready : Bool
  pub wready : Bool
  pub bvalid : Bool
  pub bresp : ℕ
  pub arready : Bool
  pub rvalid : Bool
  pub rdata : ℕ
  pub rresp : ℕ

-- The ports that the bridge drives, less `awprot` and `arprot`, which are constant.
pub record Outputs : Type 0 where
  pub req_ready : Bool
  pub rsp_valid : Bool
  pub rsp_rdata : ℕ
  pub rsp_err : Bool
  pub awvalid : Bool
  pub awaddr : ℕ
  pub wvalid : Bool
  pub wdata : ℕ
  pub wstrb : ℕ
  pub bready : Bool
  pub arvalid : Bool
  pub araddr : ℕ
  pub rready : Bool

-- `state_t`
pub data Phase : Type 0 where
  s_idle s_rd_addr s_rd_data s_wr_addr s_wr_resp s_rsp : Phase

-- `state == phase`
abbrev pub is_phase : Phase → Phase → Bool
is_phase s_idle s_idle = true
is_phase s_rd_addr s_rd_addr = true
is_phase s_rd_data s_rd_data = true
is_phase s_wr_addr s_wr_addr = true
is_phase s_wr_resp s_wr_resp = true
is_phase s_rsp s_rsp = true
is_phase _ _ = false

-- The registers.
pub record Registers : Type 0 where
  pub state : Phase
  pub addr_reg : ℕ
  pub wdata_reg : ℕ
  pub wstrb_reg : ℕ
  pub we_reg : Bool
  pub rdata_reg : ℕ
  pub err_reg : Bool
  pub aw_done : Bool
  pub w_done : Bool

-- The registers after a reset.
abbrev pub reset_values : Registers
reset_values = record {
  state = s_idle;
  addr_reg = 0;
  wdata_reg = 0;
  wstrb_reg = 0;
  we_reg = false;
  rdata_reg = 0;
  err_reg = false;
  aw_done = false;
  w_done = false;
}

-- The continuous assignments.
unfoldable pub outputs : Registers → Outputs
outputs r = record {
  req_ready = is_phase r.state s_idle;
  rsp_valid = is_phase r.state s_rsp;
  rsp_rdata = r.rdata_reg;
  rsp_err = r.err_reg;
  awvalid = is_phase r.state s_wr_addr && not r.aw_done;
  awaddr = r.addr_reg;
  wvalid = is_phase r.state s_wr_addr && not r.w_done;
  wdata = r.wdata_reg;
  wstrb = r.wstrb_reg;
  bready = is_phase r.state s_wr_resp;
  arvalid = is_phase r.state s_rd_addr;
  araddr = r.addr_reg;
  rready = is_phase r.state s_rd_data;
}

-- `S_IDLE`: a request is latched.
on_idle : Inputs → Outputs → Registers → Registers
on_idle i o r =
    let latched : Registers = record r {
      addr_reg = i.req_addr;
      wdata_reg = i.req_wdata;
      wstrb_reg = i.req_wstrb;
      we_reg = i.req_we;
    } in
    if i.req_valid && o.req_ready
    then (if i.req_we
        then record latched { state = s_wr_addr; aw_done = false; w_done = false }
        else record latched { state = s_rd_addr })
    else r

on_rd_addr : Inputs → Outputs → Registers → Registers
on_rd_addr i o r = if o.arvalid && i.arready then record r { state = s_rd_data } else r

on_rd_data : Inputs → Outputs → Registers → Registers
on_rd_data i o r =
    if i.rvalid && o.rready
    then record r { rdata_reg = i.rdata; err_reg = not (i.rresp == 0); state = s_rsp }
    else r

-- `S_WR_ADDR`: the assignments are non-blocking, so the test reads the flags as they were.
on_wr_addr : Inputs → Outputs → Registers → Registers
on_wr_addr i o r =
    let aw = r.aw_done || (o.awvalid && i.awready) in
    let w = r.w_done || (o.wvalid && i.wready) in
    let noted : Registers = record r { aw_done = aw; w_done = w } in
    if aw && w then record noted { state = s_wr_resp } else noted

on_wr_resp : Inputs → Outputs → Registers → Registers
on_wr_resp i o r =
    if i.bvalid && o.bready
    then record r { err_reg = not (i.bresp == 0); rdata_reg = 0; state = s_rsp }
    else r

on_rsp : Inputs → Outputs → Registers → Registers
on_rsp i o r = if o.rsp_valid && i.rsp_ready then record r { state = s_idle } else r

-- The `case` of the clocked block.
on_phase : Phase → Inputs → Outputs → Registers → Registers
unfolding on_idle on_rd_addr on_rd_data on_wr_addr on_wr_resp on_rsp
on_phase s_idle = on_idle
on_phase s_rd_addr = on_rd_addr
on_phase s_rd_data = on_rd_data
on_phase s_wr_addr = on_wr_addr
on_phase s_wr_resp = on_wr_resp
on_phase s_rsp = on_rsp

-- A rising edge of the clock with `rst_n` high.
unfoldable pub clocked : Inputs → Registers → Registers
unfolding on_phase outputs
clocked i r = on_phase r.state i (outputs r) r

-- The reset is asynchronous: while `rst_n` is low the registers hold their reset values.
unfoldable pub settled : Inputs → Registers → Registers
settled i r = if i.rst_n then r else reset_values

-- A rising edge, for either value of `rst_n`.
unfoldable pub edge : Inputs → Registers → Registers
unfolding clocked
edge i r = if i.rst_n then clocked i r else reset_values
