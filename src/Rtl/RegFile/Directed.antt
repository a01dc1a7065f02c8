-- ===== src/Rtl/RegFile/Directed.antt =====
-- The directed tests of the register file pass on the repository's register file.
use sisrv_platform.Prelude.{
  ℕ, zero, suc, ◌+◌, ◌*◌, ◌≤◌, ◌<◌, ◌≡◌, refl, true, false, ◌==◌, if◌then◌else◌, Bool-cases, ==_iff,
  inl, inr, bit_and, arith, ap,
}
use sisrv_platform.Rtl.RegFile.{port}
use sisrv_platform.Rtl.RegFile.Suite.{
  Bench, init_regfile, write, stop_writing, look_at, shows, x0_always_zero, read_others,
  write_does_not_corrupt_others, write_each, read_each, write_read_all_regs, mask32,
}
use sisrv_platform.Rtl.RegFile.Writes.{
  IsPlain, port-write, look_at_quiet, write-IsPlain, write_each-IsPlain, port-write_each, port-zero,
  init_regfile-IsPlain,
}

-- Out of writing, with the debug port off.
record IsIdle (b : Bench) : Type 0 where
  plain : IsPlain b
  quiet : b.ports.wr_en ≡ false

look_at-regs : (rs1 rs2 ticks : ℕ) (b : Bench) → IsIdle b → (look_at rs1 rs2 ticks b).regs ≡ b.regs
look_at-regs rs1 rs2 ticks b h =
    ap (λ (x : Bench). x.regs) (look_at_quiet rs1 rs2 ticks b h.plain h.quiet)

look_at-IsIdle : (rs1 rs2 ticks : ℕ) (b : Bench) → IsIdle b → IsIdle (look_at rs1 rs2 ticks b)
look_at-IsIdle rs1 rs2 ticks b h =
    rw (look_at_quiet rs1 rs2 ticks b h.plain h.quiet) (record { plain = h.plain; quiet = h.quiet })

look_at-shows :
    (k ticks value : ℕ) (b : Bench)
    → IsIdle b
    → port b.regs k ≡ value
    → shows value value (look_at k k ticks b) ≡ true
unfolding shows
look_at-shows k ticks value b h e =
    rw (look_at_quiet k k ticks b h.plain h.quiet) (rw (e, (==_iff value value).1 refl) refl)

-- Every register shows what it should.
Shows : ℕ → ℕ → (ℕ → ℕ) → Bench → Type 0
Shows n i value b = (k : ℕ) → i ≤ k → k < i + n → port b.regs k ≡ value k

read_each-true :
    (n i : ℕ) (value ticks : ℕ → ℕ) (b : Bench)
    → IsIdle b
    → Shows n i value b
    → read_each n i value ticks b ≡ true
unfolding read_each Shows
read_each-true zero i value ticks b h e = refl
read_each-true (suc n) i value ticks b h e =
    let regs = look_at-regs i i (ticks i) b h in
    rw (look_at-shows i (ticks i) (value i) b h (e i (omega arith) (omega arith))) (
      read_each-true n (i + 1) value ticks (look_at i i (ticks i) b)
        (look_at-IsIdle i i (ticks i) b h) (λ k p q. rw regs (e k (omega arith) (omega arith))))

stopped : (b : Bench) → IsPlain b → IsIdle (stop_writing b)
unfolding stop_writing
stopped b plain = record { plain = plain; quiet = refl }

stop_writing-regs : (b : Bench) → (stop_writing b).regs ≡ b.regs
unfolding stop_writing
stop_writing-regs b = refl

filled-Shows :
    (value : ℕ → ℕ) (b : Bench)
    → Shows 31 1 value (stop_writing (write_each 31 1 value (init_regfile b)))
unfolding Shows
filled-Shows value b k p q =
    rw (stop_writing-regs (write_each 31 1 value (init_regfile b)))
      (ground (arith, port-write_each 31 1 k value (init_regfile b) (init_regfile-IsPlain b)))

x0_always_zero_passes : (ticks : ℕ) (b : Bench) → x0_always_zero ticks b ≡ true
unfolding x0_always_zero
x0_always_zero_passes ticks b =
    let after : Bench = write 0 0xDEAD_BEEF (init_regfile b) in
    look_at-shows 0 ticks 0 (stop_writing after)
      (stopped after (write-IsPlain 0 0xDEAD_BEEF (init_regfile b) (init_regfile-IsPlain b)))
      (port-zero (stop_writing after).regs)

write_read_all_regs_passes : (ticks : ℕ → ℕ) (b : Bench) → write_read_all_regs ticks b ≡ true
unfolding write_read_all_regs
write_read_all_regs_passes ticks b =
    let value : ℕ → ℕ = λ i. bit_and (i * 0x1111_1111) mask32 in
    read_each-true 31 1 value ticks _
      (stopped (write_each 31 1 value (init_regfile b))
        (write_each-IsPlain 31 1 value (init_regfile b) (init_regfile-IsPlain b)))
      (filled-Shows value b)

-- Every register but one shows what it should.
ShowsOthers : ℕ → ℕ → ℕ → (ℕ → ℕ) → Bench → Type 0
ShowsOthers n i skipped value b =
    (k : ℕ) → i ≤ k → k < i + n → (k == skipped) ≡ false → port b.regs k ≡ value k

first_shows :
    (k r2 ticks value : ℕ) (b : Bench)
    → IsIdle b
    → port b.regs k ≡ value
    → (port (look_at k r2 ticks b).regs (look_at k r2 ticks b).ports.rs1_addr == value) ≡ true
first_shows k r2 ticks value b h e =
    rw (look_at_quiet k r2 ticks b h.plain h.quiet) (rw e ((==_iff value value).1 refl))

read_others-true :
    (n i skipped : ℕ) (value ticks : ℕ → ℕ) (b : Bench)
    → IsIdle b
    → ShowsOthers n i skipped value b
    → read_others n i skipped value ticks b ≡ true
unfolding read_others ShowsOthers
read_others-true zero i skipped value ticks b h e = refl
read_others-true (suc n) i skipped value ticks b h e =
    let next : Bench = look_at i b.ports.rs2_addr (ticks i) b in
    let regs : next.regs ≡ b.regs = look_at-regs i b.ports.rs2_addr (ticks i) b h in
    let kept =
      read_others-true n (i + 1) skipped value ticks b h
        (λ k p q o. e k (omega arith) (omega arith) o) in
    let rest =
      read_others-true n (i + 1) skipped value ticks next
        (look_at-IsIdle i b.ports.rs2_addr (ticks i) b h)
        (λ k p q o. rw regs (e k (omega arith) (omega arith) o)) in
    elim (Bool-cases (i == skipped)) [
      | inl skip ↦ rw skip kept
      | inr shown ↦ rw shown (
          rw
            (first_shows i b.ports.rs2_addr (ticks i) (value i) b h
              (e i (omega arith) (omega arith) shown))
            rest)
    ]

changed-shows :
    (k : ℕ) (b : Bench)
    → 0 < k
    → k < 32
    → port (write 5 0xFFFF_FFFF (write_each 31 1 (λ i. i) (init_regfile b))).regs k
      ≡ (if k == 5 then 0xFFFF_FFFF else k)
changed-shows k b p q =
    let filled : Bench = write_each 31 1 (λ i. i) (init_regfile b) in
    let plain = write_each-IsPlain 31 1 (λ i. i) (init_regfile b) (init_regfile-IsPlain b) in
    ground (
      arith,
      port-write 5 0xFFFF_FFFF k filled plain,
      port-write_each 31 1 k (λ i. i) (init_regfile b) (init_regfile-IsPlain b),
    )

write_does_not_corrupt_others_passes :
    (ticks : ℕ → ℕ) (b : Bench) → write_does_not_corrupt_others ticks b ≡ true
unfolding write_does_not_corrupt_others ShowsOthers
write_does_not_corrupt_others_passes ticks b =
    let filled : Bench = write_each 31 1 (λ i. i) (init_regfile b) in
    let changed : Bench = write 5 0xFFFF_FFFF filled in
    let plain : IsPlain changed =
      write-IsPlain 5 0xFFFF_FFFF filled
        (write_each-IsPlain 31 1 (λ i. i) (init_regfile b) (init_regfile-IsPlain b)) in
    let idle = stopped changed plain in
    let r2 : ℕ = (stop_writing changed).ports.rs2_addr in
    let next = look_at-regs 5 r2 (ticks 0) (stop_writing changed) idle in
    let regs = stop_writing-regs changed in
    rw
      (first_shows 5 r2 (ticks 0) 0xFFFF_FFFF (stop_writing changed) idle
        (rw regs (changed-shows 5 b (omega arith) (omega arith))))
      (read_others-true 31 1 5 (λ i. i) ticks (look_at 5 r2 (ticks 0) (stop_writing changed))
        (look_at-IsIdle 5 r2 (ticks 0) (stop_writing changed) idle)
        (λ k p q o. rw (next, regs) (ground (arith, changed-shows k b))))

-- The directed tests pass on the repository's register file, whatever it held before and however
-- many edges pass while they wait for their timers.
pub directed_tests_true :
    (tick : ℕ) (ticks : ℕ → ℕ) (b : Bench)
    → (x0_always_zero tick b ≡ true)
      × (write_read_all_regs ticks b ≡ true)
      × (write_does_not_corrupt_others ticks b ≡ true)
directed_tests_true tick ticks b = (
  x0_always_zero_passes tick b,
  write_read_all_regs_passes ticks b,
  write_does_not_corrupt_others_passes ticks b,
)
