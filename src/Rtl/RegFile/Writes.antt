-- ===== src/Rtl/RegFile/Writes.antt =====
-- What writes and edges do to the register file.
use sisrv_platform.Prelude.{
  ℕ, zero, suc, ◌+◌, ◌<◌, ◌≡◌, refl, false, ◌&&◌, ◌==◌, if◌then◌else◌, Bool-cases, ==_iff, inl, inr,
  arith, leb, ltb, ap, ◌∙◌,
}
use sisrv_platform.Rtl.RegFile.{Ports, Registers, port, clocked}
use sisrv_platform.Rtl.RegFile.Suite.{
  Bench, init_regfile, rising_edge, write, edges, look_at, write_each,
}

-- The debug port is off.
abbrev pub IsPlain : Bench → Type 0
IsPlain b = b.ports.dbg_en ≡ false

-- A write shows at the register's number, unless that is 0, and nowhere else.
pub port-write :
    (addr value k : ℕ) (b : Bench)
    → IsPlain b
    → port (write addr value b).regs k
      ≡ (if k == 0 then 0 else if k == addr then value else port b.regs k)
unfolding port write clocked
port-write addr value k b plain = ground arith

clocked_quiet :
    (p : Ports) (regs : Registers) → p.dbg_en ≡ false → p.wr_en ≡ false → clocked p regs ≡ regs
unfolding clocked
clocked_quiet p regs plain quiet = rw (plain, quiet) refl

-- Edges while nothing is written leave the bench as it is.
pub edges_quiet : (n : ℕ) (b : Bench) → IsPlain b → b.ports.wr_en ≡ false → edges n b ≡ b
unfolding edges rising_edge
edges_quiet zero b plain quiet = refl
edges_quiet (suc n) b plain quiet =
    ap (λ (regs : Registers). edges n (record b { regs = regs }))
      (clocked_quiet b.ports b.regs plain quiet)
    ∙ edges_quiet n b plain quiet

pub look_at_quiet :
    (rs1 rs2 ticks : ℕ) (b : Bench)
    → IsPlain b
    → b.ports.wr_en ≡ false
    → look_at rs1 rs2 ticks b
      ≡ record b { ports = record b.ports { rs1_addr = rs1; rs2_addr = rs2 } }
unfolding look_at
look_at_quiet rs1 rs2 ticks b plain quiet = edges_quiet ticks _ plain quiet

pub write-IsPlain : (addr value : ℕ) (b : Bench) → IsPlain b → IsPlain (write addr value b)
unfolding write rising_edge
write-IsPlain addr value b plain = plain

pub write_each-IsPlain :
    (n i : ℕ) (value : ℕ → ℕ) (b : Bench) → IsPlain b → IsPlain (write_each n i value b)
unfolding write_each
write_each-IsPlain zero i value b plain = plain
write_each-IsPlain (suc n) i value b plain =
    write_each-IsPlain n (i + 1) value (write i (value i) b) (write-IsPlain i (value i) b plain)

-- Registers `i` to `i + n - 1` are written, and no other.
pub port-write_each :
    (n i k : ℕ) (value : ℕ → ℕ) (b : Bench)
    → IsPlain b
    → 0 < k
    → port (write_each n i value b).regs k
      ≡ (if leb i k && ltb k (i + n) then value k else port b.regs k)
unfolding write_each
port-write_each zero i k value b plain h = ground arith
port-write_each (suc n) i k value b plain h =
    let later =
      port-write_each n (i + 1) k value (write i (value i) b) (write-IsPlain i (value i) b plain)
        h in
    elim (Bool-cases (k == i)) [
      | inl same ↦
          let here : k ≡ i = (==_iff k i).0 same in
          ground (arith, later, port-write i (value i) k b plain, ap value here)
      | inr other ↦ ground (arith, later, port-write i (value i) k b plain)
    ]

pub port-zero : (regs : Registers) → port regs 0 ≡ 0
unfolding port
port-zero regs = refl

pub init_regfile-IsPlain : (b : Bench) → IsPlain (init_regfile b)
unfolding init_regfile
init_regfile-IsPlain b = refl
