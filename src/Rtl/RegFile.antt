-- ===== src/Rtl/RegFile.antt =====
-- rtl/core/sisRegFile.sv: the register file. Registers x1 to x31 are a function from their number;
-- the numbers at the ports have 5 bits.
pub mod Suite
mod Writes
pub mod Passes
pub mod Directed
use sisrv_platform.Prelude.{ℕ, Bool, false, not, ◌&&◌, ◌==◌, if◌then◌else◌}

pub record Ports : Type 0 where
  pub rs1_addr : ℕ
  pub rs2_addr : ℕ
  pub wr_en : Bool
  pub rd_addr : ℕ
  pub rd_data : ℕ
  pub dbg_en : Bool
  pub dbg_we : Bool
  pub dbg_addr : ℕ
  pub dbg_wdata : ℕ

abbrev pub Registers : Type 0
Registers = ℕ → ℕ

-- regs[n] <= value
abbrev pub update : Registers → ℕ → ℕ → Registers
update regs n value k = if k == n then value else regs k

-- (addr == 5'd0) ? 32'h0 : regs[addr]
unfoldable pub port : Registers → ℕ → ℕ
port regs addr = if addr == 0 then 0 else regs addr

-- A rising edge: the debug port wins, and x0 is never written.
unfoldable pub clocked : Ports → Registers → Registers
clocked p regs =
    if p.dbg_en && p.dbg_we && not (p.dbg_addr == 0)
    then update regs p.dbg_addr p.dbg_wdata
    else if p.wr_en && not (p.rd_addr == 0)
    then update regs p.rd_addr p.rd_data
    else regs
