-- ===== src/Bridge/Ends.antt =====
-- What a part of a test leaves behind on the repository's bridge: a rule for each part.
use sisrv_platform.Prelude.{
  ℕ, ◌≡◌, refl, ap, ◌∙◌, true, not, ◌==◌, Bool, ok, bit_and, arith, Result, subst, sym,
}
use sisrv_platform.Rtl.AxiLite.{Registers, outputs, settled, edge}
use sisrv_platform.Bridge.Bench.{
  AssertionFailure, Bench, Test, bridge, >>=-ok, pure, require, ◌>>=◌, ◌>>◌, after_edge,
}
use sisrv_platform.Bridge.Driver.{mask32, int, reset_dut, do_read, do_write}
use sisrv_platform.Bridge.Stages.{IsReady}
use sisrv_platform.Bridge.Reads.{do_read-bridge}
use sisrv_platform.Bridge.Writes.{do_write-bridge}
use sisrv_platform.Bridge.Suite.{checked_read, checked_write, is_clear, has_data}

-- A step that ends normally, with a value of which `Q` holds, and leaves a bench that is ready.
pub record Ends {A : Type 0} (m : Test Registers A) (b : Bench Registers) (Q : A → Type 0)
    : Type 0 where
  pub value : A
  pub after : Bench Registers
  pub runs : m b ≡ (ok value, after)
  pub holds : Q value
  pub is_ready : IsReady after

pub Ends_bind :
    {A B : Type 0} (m : Test Registers A) (f : A → Test Registers B) (b : Bench Registers)
    (Q : A → Type 0) (R : B → Type 0)
    → Ends m b Q
    → ((a : A) (b' : Bench Registers) → Q a → IsReady b' → Ends (f a) b' R)
    → Ends (m >>= f) b R
Ends_bind m f b Q R first rest =
    let second = rest first.value first.after first.holds first.is_ready in
    record {
      value = second.value;
      after = second.after;
      runs = >>=-ok m f b first.runs ∙ second.runs;
      holds = second.holds;
      is_ready = second.is_ready;
    }

abbrev pub Any : Unit {0} → Type 0
Any _ = Unit

pub Ends_result :
    {m : Test Registers (Unit {0})} {b : Bench Registers} → Ends m b Any → (m b).0 ≡ ok tt
Ends_result e = ap (λ (x : Result AssertionFailure (Unit {0}) × Bench Registers). x.0) e.runs

pub do_read-Ends :
    (addr stall_ar stall_r beat resp : ℕ) (b : Bench Registers)
    → IsReady b
    → Ends
        (do_read bridge addr stall_ar stall_r beat resp)
        b
        (λ x. x ≡ (bit_and beat mask32, int (not (resp == 0))))
do_read-Ends addr stall_ar stall_r beat resp b h =
    let (e, ready, _) = do_read-bridge addr stall_ar stall_r beat resp b h in
    record {
      value = _;
      after = (do_read bridge addr stall_ar stall_r beat resp b).1;
      runs = λ i. (e i, (do_read bridge addr stall_ar stall_r beat resp b).1);
      holds = refl;
      is_ready = ready;
    }

pub do_write-Ends :
    (addr word strb stall_aw stall_w stall_b resp : ℕ) (b : Bench Registers)
    → IsReady b
    → Ends
        (do_write bridge addr word strb stall_aw stall_w stall_b resp)
        b
        (λ x. x ≡ int (not (resp == 0)))
do_write-Ends addr word strb stall_aw stall_w stall_b resp b h =
    let (e, ready, _) = do_write-bridge addr word strb stall_aw stall_w stall_b resp b h in
    record {
      value = _;
      after = (do_write bridge addr word strb stall_aw stall_w stall_b resp b).1;
      runs = λ i. (e i, (do_write bridge addr word strb stall_aw stall_w stall_b resp b).1);
      holds = refl;
      is_ready = ready;
    }

pub reset_dut-Ends : (b : Bench Registers) → Ends (reset_dut bridge) b Any
unfolding reset_dut after_edge settled edge outputs
reset_dut-Ends b = record {
  value = tt;
  after = (reset_dut bridge b).1;
  runs = refl;
  holds = tt;
  is_ready = record { running = refl; no_beat = refl; idle = refl };
}

pub pure-Ends : (b : Bench Registers) → IsReady b → Ends (pure tt) b Any
pure-Ends b h = record { value = tt; after = b; runs = refl; holds = tt; is_ready = h }

pub require-Ends :
    (test : Bool) (failure : AssertionFailure) (b : Bench Registers)
    → test ≡ true
    → IsReady b
    → Ends (require test failure) b Any
require-Ends test failure b e h = record {
  value = tt;
  after = b;
  runs = rw e refl;
  holds = tt;
  is_ready = h;
}

-- Two tests, one after the other.
pub Ends_then :
    (m k : Test Registers (Unit {0})) (b : Bench Registers)
    → Ends m b Any
    → ((b' : Bench Registers) → IsReady b' → Ends k b' Any)
    → Ends (m >> k) b Any
Ends_then m k b first rest = Ends_bind m (λ _. k) b Any Any first (λ _ b' _ h. rest b' h)

-- A test that resets the bridge first starts on a bridge that is ready.
pub after_reset :
    (k : Test Registers (Unit {0})) (b : Bench Registers)
    → ((b' : Bench Registers) → IsReady b' → Ends k b' Any)
    → ((reset_dut bridge >> k) b).0 ≡ ok tt
after_reset k b rest = Ends_result (Ends_then (reset_dut bridge) k b (reset_dut-Ends b) rest)

-- What is asserted of a read, and of a write.
pub read_then :
    (addr stall_ar stall_r beat resp : ℕ) (check : ℕ × ℕ → Test Registers (Unit {0}))
    (b : Bench Registers)
    → IsReady b
    → ((b' : Bench Registers)
        → IsReady b'
        → Ends (check (bit_and beat mask32, int (not (resp == 0)))) b' Any)
    → Ends (do_read bridge addr stall_ar stall_r beat resp >>= check) b Any
read_then addr stall_ar stall_r beat resp check b h rest =
    Ends_bind (do_read bridge addr stall_ar stall_r beat resp) check b _ Any
      (do_read-Ends addr stall_ar stall_r beat resp b h)
      (λ a b' e h'. subst (λ (x : ℕ × ℕ). Ends (check x) b' Any) (sym e) (rest b' h'))

pub write_then :
    (addr word strb stall_aw stall_w stall_b resp : ℕ) (check : ℕ → Test Registers (Unit {0}))
    (b : Bench Registers)
    → IsReady b
    → ((b' : Bench Registers) → IsReady b' → Ends (check (int (not (resp == 0)))) b' Any)
    → Ends (do_write bridge addr word strb stall_aw stall_w stall_b resp >>= check) b Any
write_then addr word strb stall_aw stall_w stall_b resp check b h rest =
    Ends_bind (do_write bridge addr word strb stall_aw stall_w stall_b resp) check b _ Any
      (do_write-Ends addr word strb stall_aw stall_w stall_b resp b h)
      (λ a b' e h'. subst (λ (x : ℕ). Ends (check x) b' Any) (sym e) (rest b' h'))

pub checked_read-Ends :
    (addr stall_ar stall_r beat expected : ℕ) (b : Bench Registers)
    → bit_and beat mask32 ≡ expected
    → IsReady b
    → Ends (checked_read bridge addr stall_ar stall_r beat expected) b Any
unfolding checked_read
checked_read-Ends addr stall_ar stall_r beat expected b e h =
    read_then addr stall_ar stall_r beat 0
      (λ answer. has_data expected answer >> is_clear (answer.1)) b h
      (λ b' h'.
        Ends_then (require (bit_and beat mask32 == expected) AssertionFailure.read_mismatch)
          (pure tt) b' (require-Ends _ _ b' (ground (arith, e)) h') pure-Ends)

pub checked_write-Ends :
    (addr word strb stall_aw stall_w stall_b : ℕ) (b : Bench Registers)
    → IsReady b
    → Ends (checked_write bridge addr word strb stall_aw stall_w stall_b) b Any
unfolding checked_write
checked_write-Ends addr word strb stall_aw stall_w stall_b b h =
    write_then addr word strb stall_aw stall_w stall_b 0 is_clear b h pure-Ends
