-- ===== src/Bridge/Bench.antt =====
-- tb/cocotb: the test bench of the bridge. The device under test is a parameter: its state, and
-- what a rising edge of the clock does to it. After `await RisingEdge(dut.clk)` a test reads what
-- the ports showed at the edge, before the registers took their next values, and what it then writes
-- to a port is there at the next edge.
use sisrv_platform.Prelude.{◌≡◌, ap, ℕ, suc, Bool, Result, ok, err}
use sisrv_platform.Rtl.AxiLite.{Inputs, Outputs, Registers, settled, outputs, edge}

-- `rising i s`: what the ports show at an edge with the inputs `i`, and the next state.
pub record Dut : Type 1 where
  pub State : Type 0
  pub rising : Inputs → State → Outputs × State

-- The assertions of the tests.
pub data AssertionFailure : Type 0 where
  arvalid_never : AssertionFailure
  araddr_mismatch : AssertionFailure
  awaddr_mismatch : AssertionFailure
  wdata_mismatch : AssertionFailure
  wstrb_mismatch : AssertionFailure
  handshake_failed : AssertionFailure
  read_mismatch : AssertionFailure
  unexpected_error : AssertionFailure
  expected_error : AssertionFailure
  not_idle : AssertionFailure
  arvalid_dropped : AssertionFailure

-- What a test drives, the device, what the last edge showed, and the edges that it has awaited.
pub record Bench (S : Type 0) : Type 0 where
  pub pins : Inputs
  pub device : S
  pub seen : Outputs
  pub edges : ℕ

abbrev pub Test : Type 0 → Type 0 → Type 0
Test S A = Bench S → Result AssertionFailure A × Bench S

infixl 5 ◌>>=◌ ◌>>◌
abbrev pub ◌>>=◌ : {S A B : Type 0} → Test S A → (A → Test S B) → Test S B
◌>>=◌ m f b = let (r, b') = m b in elim r [ ok a ↦ f a b' | err e ↦ (err e, b') ]

abbrev pub ◌>>◌ : {S B : Type 0} → Test S (Unit {0}) → Test S B → Test S B
m >> k = m >>= λ _. k

abbrev pub pure : {S A : Type 0} → A → Test S A
pure a b = (ok a, b)

-- A step that ends normally hands its value and its bench on.
pub >>=-ok :
    {S A B : Type 0} (m : Test S A) (f : A → Test S B) (b : Bench S) {b' : Bench S} {a : A}
    → m b ≡ (ok a, b')
    → (m >>= f) b ≡ f a b'
>>=-ok {S} {A} {B} m f b e =
    ap
      (λ (x : Result AssertionFailure A × Bench S).
        let y : Result AssertionFailure B × Bench S = elim (x.0) [
          | ok a ↦ f a x.1
          | err raised ↦ (err raised, x.1)
        ] in
        y)
      e

pub >>-ok :
    {S B : Type 0} (m : Test S (Unit {0})) (k : Test S B) (b : Bench S) {b' : Bench S}
    → m b ≡ (ok tt, b')
    → (m >> k) b ≡ k b'
>>-ok m k b e = >>=-ok m (λ _. k) b e

-- `assert test, failure`
abbrev pub require : {S : Type 0} → Bool → AssertionFailure → Test S (Unit {0})
require test failure b = elim test [ Bool.true ↦ (ok tt, b) | Bool.false ↦ (err failure, b) ]

-- `dut.port.value = value`, for one port or several.
abbrev pub drive : {S : Type 0} → (Inputs → Inputs) → Test S (Unit {0})
drive change b = (ok tt, record b { pins = change b.pins })

-- `int(dut.port.value)`
abbrev pub read : {S A : Type 0} → (Outputs → A) → Test S A
read port b = (ok (port b.seen), b)

module _ (d : Dut) where
  open d use {State, rising}

  unfoldable pub after_edge : Bench State → Bench State
  after_edge b =
      let (shown, next) = rising b.pins b.device in
      record b { device = next; seen = shown; edges = suc b.edges }

  -- await RisingEdge(dut.clk)
  abbrev pub rising_edge : Test State (Unit {0})
  rising_edge b = (ok tt, after_edge b)

  -- for _ in range(n): await RisingEdge(dut.clk)
  unfoldable pub after_edges : ℕ → Bench State → Bench State
  after_edges ℕ.zero b = b
  after_edges (suc n) b = after_edges n (after_edge b)

  abbrev pub stall : ℕ → Test State (Unit {0})
  stall n b = (ok tt, after_edges n b)

  -- for _ in range(n): await RisingEdge(dut.clk); if int(dut.flag.value) == 1: break
  unfoldable pub after_wait : (Outputs → Bool) → ℕ → Bench State → Bench State
  after_wait flag ℕ.zero b = b
  after_wait flag (suc n) b =
      let next = after_edge b in
      elim (flag next.seen) [ Bool.true ↦ next | Bool.false ↦ after_wait flag n next ]

  abbrev pub wait_for : (Outputs → Bool) → ℕ → Test State (Unit {0})
  wait_for flag n b = (ok tt, after_wait flag n b)

-- The repository's bridge as the device.
abbrev pub bridge : Dut
bridge = record { State = Registers; rising = λ i r. (outputs (settled i r), edge i r) }
