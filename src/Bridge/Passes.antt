-- ===== src/Bridge/Passes.antt =====
-- The tests of the bridge pass on the repository's bridge, whatever it and the bench hold before.
use sisrv_platform.Prelude.{
  ℕ, zero, suc, ◌+◌, ◌*◌, ◌%◌, ◌^◌, ◌<◌, ◌≡◌, refl, ◌==◌, Bool-cases, inl, inr, ok, List, [], ◌∷◌,
  bit_and, arith, All, bit_and_mask,
}
use sisrv_platform.Rtl.AxiLite.{Registers, outputs, settled, edge}
use sisrv_platform.Bridge.Bench.{Bench, bridge, pure, ◌>>=◌, ◌>>◌, after_edge, after_wait}
use sisrv_platform.Bridge.Driver.{mask32, reset_dut, do_read, do_write}
use sisrv_platform.Bridge.Stages.{IsReady}
use sisrv_platform.Bridge.Suite.{
  Transaction, read_of, write_of, checked_read, checked_write, rounds, transact, transact_all,
  seeds, is_set, has_data, axil_random_stall_stress, strobes, axil_wstrb_variations,
  axil_back_to_back, axil_reset, axil_basic_read, axil_basic_write, axil_read_error,
  axil_write_error, axil_stalled_read, axil_stalled_write, axil_valid_stability, until_taken,
  watch_arvalid,
}
use sisrv_platform.Bridge.Ends.{
  Ends, Any, pure-Ends, require-Ends, Ends_then, after_reset, read_then, write_then,
  checked_read-Ends, checked_write-Ends,
}

transact_of_read :
    (addr rdata stall_ar stall_r : ℕ) (b : Bench Registers)
    → rdata < 2 ^ 32
    → IsReady b
    → Ends (transact bridge (read_of addr rdata stall_ar stall_r)) b Any
unfolding transact
transact_of_read addr rdata stall_ar stall_r b fits h =
    read_then addr stall_ar stall_r rdata 0 (has_data rdata) b h
      (λ b' h'. require-Ends _ _ b' (ground (arith, bit_and_mask 32 rdata, fits)) h')

-- What `random.randint(0, MASK32)` gives as the data of a read.
abbrev pub Fits : Transaction → Type 0
Fits (read_of addr rdata stall_ar stall_r) = rdata < 2 ^ 32
Fits (write_of addr word stall_aw stall_w stall_b) = Unit

transact-Ends :
    (t : Transaction) (b : Bench Registers) → Fits t → IsReady b → Ends (transact bridge t) b Any
unfolding transact
transact-Ends (read_of addr rdata stall_ar stall_r) b fits h =
    transact_of_read addr rdata stall_ar stall_r b fits h
transact-Ends (write_of addr word stall_aw stall_w stall_b) b fits h =
    write_then addr word 0xF stall_aw stall_w stall_b 0 (λ _. pure tt) b h pure-Ends

transact_all-Ends :
    (ts : List Transaction) (b : Bench Registers)
    → All Fits ts
    → IsReady b
    → Ends (transact_all bridge ts) b Any
unfolding transact_all
transact_all-Ends [] b fits h = pure-Ends b h
transact_all-Ends (t ∷ ts) b fits h =
    Ends_then (transact bridge t) (transact_all bridge ts) b (transact-Ends t b (fits.0) h)
      (λ b' h'. transact_all-Ends ts b' (fits.1) h')

seeds-Ends :
    (tss : List (List Transaction)) (b : Bench Registers)
    → All (All Fits) tss
    → IsReady b
    → Ends (seeds bridge tss) b Any
unfolding seeds
seeds-Ends [] b fits h = pure-Ends b h
seeds-Ends (ts ∷ tss) b fits h =
    Ends_then (transact_all bridge ts) (seeds bridge tss) b (transact_all-Ends ts b (fits.0) h)
      (λ b' h'. seeds-Ends tss b' (fits.1) h')

-- The stress test passes on the repository's bridge for every choice of `random`, for any number of
-- seeds and of transactions, and whatever the registers and the inputs were before the reset.
pub axil_random_stall_stress_passes :
    (chosen : List (List Transaction)) (b : Bench Registers)
    → All (All Fits) chosen
    → (axil_random_stall_stress bridge chosen b).0 ≡ ok tt
unfolding axil_random_stall_stress
axil_random_stall_stress_passes chosen b fits =
    after_reset (seeds bridge chosen) b (λ b' h. seeds-Ends chosen b' fits h)

rounds-Ends : (n i : ℕ) (b : Bench Registers) → IsReady b → Ends (rounds bridge n i) b Any
unfolding rounds
rounds-Ends zero i b h = pure-Ends b h
rounds-Ends (suc n) i b h = elim (Bool-cases (i % 2 == 0)) [
  | inl even ↦ rw even (
      Ends_then
        (checked_read bridge (i * 4) 0 0 (i * 0x1111_1111) (bit_and (i * 0x1111_1111) mask32))
        (rounds bridge n (suc i)) b (checked_read-Ends _ _ _ _ _ b refl h) (rounds-Ends n (suc i)))
  | inr odd ↦ rw odd (
      Ends_then (checked_write bridge (0x8000_0000 + i * 4) (i * 0x2222_2222) 0xF 0 0 0)
        (rounds bridge n (suc i)) b (checked_write-Ends _ _ _ _ _ _ b h) (rounds-Ends n (suc i)))
]

strobes-Ends :
    (strbs : List ℕ) (b : Bench Registers) → IsReady b → Ends (strobes bridge strbs) b Any
unfolding strobes
strobes-Ends [] b h = pure-Ends b h
strobes-Ends (strb ∷ strbs) b h =
    Ends_then (checked_write bridge 0x8000_0000 0xFFFF_FFFF strb 0 0 0) (strobes bridge strbs) b
      (checked_write-Ends _ _ _ _ _ _ b h) (strobes-Ends strbs)

axil_back_to_back_passes : (b : Bench Registers) → (axil_back_to_back bridge b).0 ≡ ok tt
unfolding axil_back_to_back
axil_back_to_back_passes b = after_reset (rounds bridge 10 0) b (rounds-Ends 10 0)

axil_wstrb_variations_passes : (b : Bench Registers) → (axil_wstrb_variations bridge b).0 ≡ ok tt
unfolding axil_wstrb_variations
axil_wstrb_variations_passes b = after_reset (strobes bridge _) b (strobes-Ends _)

axil_errors_passes :
    (b : Bench Registers)
    → ((axil_read_error bridge b).0 ≡ ok tt) × ((axil_write_error bridge b).0 ≡ ok tt)
unfolding axil_read_error axil_write_error
axil_errors_passes b = (
  after_reset (do_read bridge 0xFFFF_0000 0 0 0 0b11 >>= λ answer. is_set (answer.1)) b
      (λ b' h. read_then _ _ _ _ _ (λ answer. is_set (answer.1)) b' h pure-Ends),
  after_reset (do_write bridge 0xFFFF_0000 0x1234_5678 0xF 0 0 0 0b10 >>= is_set) b
      (λ b' h. write_then _ _ _ _ _ _ _ is_set b' h pure-Ends),
)

reset_then_read :
    (addr stall_ar stall_r beat : ℕ) (b : Bench Registers)
    → ((reset_dut bridge >> checked_read bridge addr stall_ar stall_r beat (bit_and beat mask32))
        b).0
      ≡ ok tt
reset_then_read addr stall_ar stall_r beat b =
    after_reset (checked_read bridge addr stall_ar stall_r beat (bit_and beat mask32)) b
      (λ b' h. checked_read-Ends addr stall_ar stall_r beat _ b' refl h)

reset_then_write :
    (addr word stall_aw stall_w stall_b : ℕ) (b : Bench Registers)
    → ((reset_dut bridge >> checked_write bridge addr word 0xF stall_aw stall_w stall_b) b).0
      ≡ ok tt
reset_then_write addr word stall_aw stall_w stall_b b =
    after_reset (checked_write bridge addr word 0xF stall_aw stall_w stall_b) b
      (checked_write-Ends addr word 0xF stall_aw stall_w stall_b)

axil_plain_passes :
    (b : Bench Registers)
    → ((axil_basic_read bridge b).0 ≡ ok tt)
      × ((axil_basic_write bridge b).0 ≡ ok tt)
      × ((axil_stalled_read bridge b).0 ≡ ok tt)
      × ((axil_stalled_write bridge b).0 ≡ ok tt)
unfolding axil_basic_read axil_basic_write axil_stalled_read axil_stalled_write
axil_plain_passes b = (
  reset_then_read 0x1000 0 0 0xCAFE_BABE b,
  reset_then_write 0x8000_0000 0xDEAD_BEEF 0 0 0 b,
  reset_then_read 0x2000 5 3 0xA5A5_A5A5 b,
  reset_then_write 0x8000_1000 0x5A5A_5A5A 4 2 3 b,
)

axil_ports_passes :
    (b : Bench Registers)
    → ((axil_reset bridge b).0 ≡ ok tt) × ((axil_valid_stability bridge b).0 ≡ ok tt)
unfolding axil_reset axil_valid_stability until_taken watch_arvalid reset_dut after_edge after_wait
    settled edge outputs
axil_ports_passes b = (refl, refl)

-- Every test of the suite but the random one passes on the repository's bridge, whatever its
-- registers and its inputs were before the reset.
pub directed_tests_pass :
    (b : Bench Registers)
    → ((axil_reset bridge b).0 ≡ ok tt)
      × ((axil_basic_read bridge b).0 ≡ ok tt)
      × ((axil_basic_write bridge b).0 ≡ ok tt)
      × ((axil_read_error bridge b).0 ≡ ok tt)
      × ((axil_write_error bridge b).0 ≡ ok tt)
      × ((axil_stalled_read bridge b).0 ≡ ok tt)
      × ((axil_stalled_write bridge b).0 ≡ ok tt)
      × ((axil_back_to_back bridge b).0 ≡ ok tt)
      × ((axil_wstrb_variations bridge b).0 ≡ ok tt)
      × ((axil_valid_stability bridge b).0 ≡ ok tt)
directed_tests_pass b =
    let (reset, stability) = axil_ports_passes b in
    let (basic_read, basic_write, stalled_read, stalled_write) = axil_plain_passes b in
    let (read_error, write_error) = axil_errors_passes b in
    (
      reset,
      basic_read,
      basic_write,
      read_error,
      write_error,
      stalled_read,
      stalled_write,
      axil_back_to_back_passes b,
      axil_wstrb_variations_passes b,
      stability,
    )
