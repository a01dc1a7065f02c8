-- ===== src/Rtl/RegFile/Suite.antt =====
-- tb/cocotb/test_regfile.py: its tests, each as whether all its assertions hold. What `random`
-- chooses, and the rising edges that pass while a test waits for a timer, are arguments.
use sisrv_platform.Prelude.{
  ℕ, zero, suc, ◌+◌, ◌*◌, Bool, true, false, ◌&&◌, ◌==◌, if◌then◌else◌, List, [], ◌∷◌, get_or,
  bit_and,
}
use sisrv_platform.Rtl.RegFile.{Ports, Registers, port, clocked}

abbrev pub mask32 : ℕ
mask32 = 0xFFFF_FFFF

-- What a test drives, and the registers.
pub record Bench : Type 0 where
  pub ports : Ports
  pub regs : Registers

-- init_regfile
unfoldable pub init_regfile : Bench → Bench
init_regfile b = record b {
  ports = record b.ports { dbg_en = false; dbg_we = false; dbg_addr = 0; dbg_wdata = 0 };
}

-- await RisingEdge(dut.clk)
unfoldable pub rising_edge : Bench → Bench
rising_edge b = record b { regs = clocked b.ports b.regs }

-- The write port is set up, and an edge awaited.
unfoldable pub write : ℕ → ℕ → Bench → Bench
unfolding rising_edge
write addr value b =
    rising_edge
      (record b { ports = record b.ports { wr_en = true; rd_addr = addr; rd_data = value } })

unfoldable pub stop_writing : Bench → Bench
stop_writing b = record b { ports = record b.ports { wr_en = false } }

-- Both read ports are set up and a timer is awaited, in which `ticks` rising edges pass.
unfoldable pub edges : ℕ → Bench → Bench
edges zero b = b
edges (suc n) b = edges n (rising_edge b)

unfoldable pub look_at : ℕ → ℕ → ℕ → Bench → Bench
unfolding edges
look_at rs1 rs2 ticks b =
    edges ticks (record b { ports = record b.ports { rs1_addr = rs1; rs2_addr = rs2 } })

-- int(dut.rs1_data.value) == first, and likewise for the other port.
unfoldable pub shows : ℕ → ℕ → Bench → Bool
shows first second b =
    port b.regs b.ports.rs1_addr == first && port b.regs b.ports.rs2_addr == second

unfoldable pub x0_always_zero : ℕ → Bench → Bool
x0_always_zero ticks b =
    shows 0 0 (look_at 0 0 ticks (stop_writing (write 0 0xDEAD_BEEF (init_regfile b))))

-- for i in range(i, i + n): write value(i) to register i
unfoldable pub write_each : ℕ → ℕ → (ℕ → ℕ) → Bench → Bench
write_each zero i value b = b
write_each (suc n) i value b = write_each n (i + 1) value (write i (value i) b)

-- for i in range(i, i + n): both ports show value(i) for register i
unfoldable pub read_each : ℕ → ℕ → (ℕ → ℕ) → (ℕ → ℕ) → Bench → Bool
read_each zero i value ticks b = true
read_each (suc n) i value ticks b =
    let next = look_at i i (ticks i) b in
    let rest = read_each n (i + 1) value ticks next in
    if shows (value i) (value i) next then rest else false

unfoldable pub write_read_all_regs : (ℕ → ℕ) → Bench → Bool
write_read_all_regs ticks b =
    let value = λ (i : ℕ). bit_and (i * 0x1111_1111) mask32 in
    read_each 31 1 value ticks (stop_writing (write_each 31 1 value (init_regfile b)))

-- for i in range(i, i + n), if i != skipped: the first port shows value(i) for register i
unfoldable pub read_others : ℕ → ℕ → ℕ → (ℕ → ℕ) → (ℕ → ℕ) → Bench → Bool
read_others zero i skipped value ticks b = true
read_others (suc n) i skipped value ticks b =
    let next = look_at i b.ports.rs2_addr (ticks i) b in
    let kept = read_others n (i + 1) skipped value ticks b in
    let rest = read_others n (i + 1) skipped value ticks next in
    if i == skipped
    then kept
    else if port next.regs next.ports.rs1_addr == value i
    then rest
    else false

unfoldable pub write_does_not_corrupt_others : (ℕ → ℕ) → Bench → Bool
write_does_not_corrupt_others ticks b =
    let filled = write_each 31 1 (λ i. i) (init_regfile b) in
    let changed = stop_writing (write 5 0xFFFF_FFFF filled) in
    let next = look_at 5 changed.ports.rs2_addr (ticks 0) changed in
    let rest = read_others 31 1 5 (λ i. i) ticks next in
    if port next.regs next.ports.rs1_addr == 0xFFFF_FFFF then rest else false

-- What `random` chooses for a round.
pub record Round : Type 0 where
  pub addr : ℕ
  pub word : ℕ
  pub rs1 : ℕ
  pub rs2 : ℕ

-- shadow[addr] = word
abbrev pub set : List ℕ → ℕ → ℕ → List ℕ
set [] i v = []
set (x ∷ xs) zero v = v ∷ xs
set (x ∷ xs) (suc i) v = x ∷ set xs i v

-- [0] * n
abbrev pub zeros : ℕ → List ℕ
zeros zero = []
zeros (suc n) = 0 ∷ zeros n

unfoldable pub shadow_after : Round → List ℕ → List ℕ
shadow_after r shadow = if r.addr == 0 then shadow else set shadow r.addr r.word

unfoldable pub bench_after : Round → Bench → Bench
bench_after r b = look_at r.rs1 r.rs2 0 (stop_writing (write r.addr r.word b))

unfoldable pub rounds : List Round → List ℕ → Bench → Bool
rounds [] shadow b = true
rounds (r ∷ rs) shadow b =
    let shadow' = shadow_after r shadow in
    let next = bench_after r b in
    let rest = rounds rs shadow' next in
    if shows (get_or shadow' r.rs1 0) (get_or shadow' r.rs2 0) next then rest else false

unfoldable pub random_read_write : List Round → Bench → Bool
random_read_write chosen b =
    rounds chosen (zeros 32) (stop_writing (write_each 31 1 (λ _. 0) (init_regfile b)))
