-- ===== src/Bridge/Suite.antt =====
-- tb/cocotb/test_axil_bridge.py: the tests. What `random` chooses is an argument.
use sisrv_platform.Prelude.{
  ℕ, zero, suc, ◌+◌, ◌*◌, ◌%◌, Bool, true, false, not, ◌||◌, ◌==◌, List, [], ◌∷◌, bit_and,
}
use sisrv_platform.Bridge.Bench.{
  Dut, AssertionFailure, Test, ◌>>=◌, ◌>>◌, pure, require, drive, read, rising_edge, wait_for,
}
use sisrv_platform.Bridge.Driver.{mask32, reset_dut, do_read, do_write}

-- A transaction of the stress test: the arguments that `random` chooses for it.
pub data Transaction : Type 0 where
  read_of : (addr rdata stall_ar stall_r : ℕ) → Transaction
  write_of : (addr word stall_aw stall_w stall_b : ℕ) → Transaction

-- A port of one bit at 0 or at 1.
abbrev pub is_low : {S : Type 0} → Bool → Test S (Unit {0})
is_low port = require (not port) AssertionFailure.not_idle

-- The assertions on the answer of a read or of a write.
abbrev pub is_clear : {S : Type 0} → ℕ → Test S (Unit {0})
is_clear error = require (error == 0) AssertionFailure.unexpected_error

abbrev pub is_set : {S : Type 0} → ℕ → Test S (Unit {0})
is_set error = require (error == 1) AssertionFailure.expected_error

abbrev pub has_data : {S : Type 0} → ℕ → ℕ × ℕ → Test S (Unit {0})
has_data expected answer = require (answer.0 == expected) AssertionFailure.read_mismatch

module _ (d : Dut) where
  open d use {State}

  unfoldable pub axil_reset : Test State (Unit {0})
  axil_reset = do
    reset_dut d
    req_ready ← read (λ o. o.req_ready)
    require req_ready AssertionFailure.not_idle
    arvalid ← read (λ o. o.arvalid)
    is_low arvalid
    awvalid ← read (λ o. o.awvalid)
    is_low awvalid
    wvalid ← read (λ o. o.wvalid)
    is_low wvalid
    rsp_valid ← read (λ o. o.rsp_valid)
    is_low rsp_valid

  -- A read whose data and error flag are asserted.
  unfoldable pub checked_read : ℕ → ℕ → ℕ → ℕ → ℕ → Test State (Unit {0})
  checked_read addr stall_ar stall_r rdata expected = do
    answer ← do_read d addr stall_ar stall_r rdata 0
    has_data expected answer
    is_clear answer.1

  -- A write whose error flag is asserted to be clear.
  unfoldable pub checked_write : ℕ → ℕ → ℕ → ℕ → ℕ → ℕ → Test State (Unit {0})
  checked_write addr word strb stall_aw stall_w stall_b = do
    error ← do_write d addr word strb stall_aw stall_w stall_b 0
    is_clear error

  unfoldable pub axil_basic_read : Test State (Unit {0})
  axil_basic_read = reset_dut d >> checked_read 0x1000 0 0 0xCAFE_BABE 0xCAFE_BABE

  unfoldable pub axil_basic_write : Test State (Unit {0})
  axil_basic_write = reset_dut d >> checked_write 0x8000_0000 0xDEAD_BEEF 0xF 0 0 0

  unfoldable pub axil_read_error : Test State (Unit {0})
  axil_read_error = do reset_dut d; answer ← do_read d 0xFFFF_0000 0 0 0 0b11; is_set answer.1

  unfoldable pub axil_write_error : Test State (Unit {0})
  axil_write_error = do
    reset_dut d
    error ← do_write d 0xFFFF_0000 0x1234_5678 0xF 0 0 0 0b10
    is_set error

  unfoldable pub axil_stalled_read : Test State (Unit {0})
  axil_stalled_read = reset_dut d >> checked_read 0x2000 5 3 0xA5A5_A5A5 0xA5A5_A5A5

  unfoldable pub axil_stalled_write : Test State (Unit {0})
  axil_stalled_write = reset_dut d >> checked_write 0x8000_1000 0x5A5A_5A5A 0xF 4 2 3

  -- The rounds `i`, `i + 1`, ... of the back-to-back test: reads on even rounds, writes on odd ones.
  unfoldable pub rounds : ℕ → ℕ → Test State (Unit {0})
  rounds zero i = pure tt
  rounds (suc n) i = do
    elim (i % 2 == 0) [
      | true ↦ checked_read (i * 4) 0 0 (i * 0x1111_1111) (bit_and (i * 0x1111_1111) mask32)
      | false ↦ checked_write (0x8000_0000 + i * 4) (i * 0x2222_2222) 0xF 0 0 0
    ]
    rounds n (suc i)

  unfoldable pub axil_back_to_back : Test State (Unit {0})
  axil_back_to_back = reset_dut d >> rounds 10 0

  -- A round of the stress test. It reads no error flag.
  unfoldable pub transact : Transaction → Test State (Unit {0})
  transact (Transaction.read_of addr rdata stall_ar stall_r) = do
    answer ← do_read d addr stall_ar stall_r rdata 0
    has_data rdata answer
  transact (Transaction.write_of addr word stall_aw stall_w stall_b) = do
    error ← do_write d addr word 0xF stall_aw stall_w stall_b 0
    pure tt

  unfoldable pub transact_all : List Transaction → Test State (Unit {0})
  transact_all [] = pure tt
  transact_all (t ∷ ts) = transact t >> transact_all ts

  -- The transactions of one seed after those of another.
  unfoldable pub seeds : List (List Transaction) → Test State (Unit {0})
  seeds [] = pure tt
  seeds (ts ∷ more) = transact_all ts >> seeds more

  unfoldable pub axil_random_stall_stress : List (List Transaction) → Test State (Unit {0})
  axil_random_stall_stress chosen = reset_dut d >> seeds chosen

  unfoldable pub strobes : List ℕ → Test State (Unit {0})
  strobes [] = pure tt
  strobes (strb ∷ more) = checked_write 0x8000_0000 0xFFFF_FFFF strb 0 0 0 >> strobes more

  unfoldable pub axil_wstrb_variations : Test State (Unit {0})
  axil_wstrb_variations =
      reset_dut d >> strobes (0x1 ∷ 0x2 ∷ 0x4 ∷ 0x8 ∷ 0x3 ∷ 0xC ∷ 0xF ∷ 0x5 ∷ 0xA ∷ [])

  -- for _ in range(n): the request is dropped once it is taken
  unfoldable pub until_taken : ℕ → Test State (Unit {0})
  until_taken zero = pure tt
  until_taken (suc n) = do
    rising_edge d
    req_ready ← read (λ o. o.req_ready)
    elim req_ready [ true ↦ drive (λ p. record p { req_valid = false }) | false ↦ until_taken n ]

  -- Once `arvalid` was seen, it stays; the answer is whether it was seen.
  unfoldable pub watch_arvalid : ℕ → Bool → Test State Bool
  watch_arvalid zero saw = pure saw
  watch_arvalid (suc n) saw = do
    rising_edge d
    arvalid ← read (λ o. o.arvalid)
    let saw' = saw || arvalid
    elim saw' [ true ↦ require arvalid AssertionFailure.arvalid_dropped | false ↦ pure tt ]
    watch_arvalid n saw'

  unfoldable pub axil_valid_stability : Test State (Unit {0})
  axil_valid_stability = do
    reset_dut d
    drive (λ p. record p {
      req_valid = true;
      req_addr = 0x1000;
      req_we = false;
      rsp_ready = true;
      arready = false;
    })
    until_taken 10
    saw_arvalid ← watch_arvalid 10 false
    require saw_arvalid AssertionFailure.arvalid_never
    drive (λ p. record p { arready = true })
    rising_edge d
    drive (λ p. record p { arready = false })
    rising_edge d
    drive (λ p. record p { rvalid = true; rdata = 0; rresp = 0 })
    wait_for d (λ o. o.rready) 10
    drive (λ p. record p { rvalid = false })
    wait_for d (λ o. o.rsp_valid) 10
    rising_edge d
