-- ===== src/Rtl/RegFile/Passes.antt =====
-- The tests of the register file pass on the repository's register file.
use sisrv_platform.Prelude.{
  ℕ, zero, suc, ◌<◌, ◌≡◌, refl, true, ◌==◌, if◌then◌else◌, List, [], ◌∷◌, get_or, length, All,
  arith, ltb, sym,
}
use sisrv_platform.Rtl.RegFile.{port}
use sisrv_platform.Rtl.RegFile.Suite.{
  Bench, init_regfile, stop_writing, look_at, shows, write_each, Round, set, zeros, shadow_after,
  bench_after, rounds, random_read_write,
}
use sisrv_platform.Rtl.RegFile.Writes.{
  IsPlain, port-write, write-IsPlain, write_each-IsPlain, port-write_each, port-zero,
  init_regfile-IsPlain,
}

-- The shadow holds what the ports show.
record Agrees (shadow : List ℕ) (b : Bench) : Type 0 where
  plain : IsPlain b
  whole : length shadow ≡ 32
  shown : (k : ℕ) → get_or shadow k 0 ≡ (if ltb k 32 then port b.regs k else 0)

length-set : (xs : List ℕ) (i v : ℕ) → length (set xs i v) ≡ length xs
length-set [] i v = refl
length-set (x ∷ xs) zero v = refl
length-set (x ∷ xs) (suc i) v = omega (arith, length-set xs i v)

get_or-set :
    (xs : List ℕ) (i v k : ℕ)
    → i < length xs
    → get_or (set xs i v) k 0 ≡ (if k == i then v else get_or xs k 0)
get_or-set [] i v k h = absurd (omega arith)
get_or-set (x ∷ xs) zero v zero h = refl
get_or-set (x ∷ xs) zero v (suc k) h = ground arith
get_or-set (x ∷ xs) (suc i) v zero h = ground arith
get_or-set (x ∷ xs) (suc i) v (suc k) h = ground (arith, get_or-set xs i v k)

-- The choices of `random.randint(0, 31)`.
pub record InRange (r : Round) : Type 0 where
  pub addr_fits : r.addr < 32
  pub rs1_fits : r.rs1 < 32
  pub rs2_fits : r.rs2 < 32

bench_after-port :
    (r : Round) (b : Bench) (k : ℕ)
    → IsPlain b
    → port (bench_after r b).regs k
      ≡ (if k == 0 then 0 else if k == r.addr then r.word else port b.regs k)
unfolding bench_after look_at stop_writing
bench_after-port r b k plain = port-write r.addr r.word k b plain

bench_after-IsPlain : (r : Round) (b : Bench) → IsPlain b → IsPlain (bench_after r b)
unfolding bench_after look_at stop_writing
bench_after-IsPlain r b plain = write-IsPlain r.addr r.word b plain

Agrees-round :
    (r : Round) (shadow : List ℕ) (b : Bench)
    → InRange r
    → Agrees shadow b
    → Agrees (shadow_after r shadow) (bench_after r b)
unfolding shadow_after
Agrees-round r shadow b h a = record {
  plain = bench_after-IsPlain r b a.plain;
  whole = ground (arith, a.whole, length-set shadow r.addr r.word);
  shown = λ k. ground (
    arith,
    bench_after-port r b k a.plain,
    get_or-set shadow r.addr r.word k,
    a.shown k,
    a.whole,
    h.addr_fits,
    port-zero b.regs,
  );
}

-- What a round looks at.
bench_after-shows :
    (r : Round) (shadow : List ℕ) (b : Bench)
    → InRange r
    → Agrees shadow (bench_after r b)
    → shows (get_or shadow r.rs1 0) (get_or shadow r.rs2 0) (bench_after r b) ≡ true
unfolding shows bench_after look_at stop_writing
bench_after-shows r shadow b h a =
    ground (arith, a.shown r.rs1, a.shown r.rs2, h.rs1_fits, h.rs2_fits)

rounds-true :
    (rs : List Round) (shadow : List ℕ) (b : Bench)
    → All InRange rs
    → Agrees shadow b
    → rounds rs shadow b ≡ true
unfolding rounds
rounds-true [] shadow b fits a = refl
rounds-true (r ∷ rs) shadow b fits a =
    let next = Agrees-round r shadow b (fits.0) a in
    rw (bench_after-shows r (shadow_after r shadow) b (fits.0) next)
      (rounds-true rs (shadow_after r shadow) (bench_after r b) (fits.1) next)

get_or-zeros : (n k : ℕ) → get_or (zeros n) k 0 ≡ 0
get_or-zeros zero k = refl
get_or-zeros (suc n) zero = refl
get_or-zeros (suc n) (suc k) = get_or-zeros n k

-- The bench before the first round, all registers at 0.
cleared : Bench → Bench
cleared b = write_each 31 1 (λ _. 0) (init_regfile b)

cleared-Agrees : (b : Bench) → Agrees (zeros 32) (stop_writing (cleared b))
unfolding stop_writing cleared
cleared-Agrees b = record {
  plain = write_each-IsPlain 31 1 (λ _. 0) (init_regfile b) (init_regfile-IsPlain b);
  whole = refl;
  shown = λ k. cleared-shown k b;
}
  where
    cleared-shown :
        (k : ℕ) (b : Bench)
        → get_or (zeros 32) k 0
          ≡ (if ltb k 32 then port (write_each 31 1 (λ _. 0) (init_regfile b)).regs k else 0)
    cleared-shown zero b = sym (port-zero (write_each 31 1 (λ _. 0) (init_regfile b)).regs)
    cleared-shown (suc k) b = ground (
      arith,
      get_or-zeros 32 (suc k),
      port-write_each 31 1 (suc k) (λ _. 0) (init_regfile b) (init_regfile-IsPlain b),
    )

-- The random test passes on the repository's register file for every choice of registers, data and
-- number of rounds, whatever the registers and the inputs were before.
pub random_read_write_passes :
    (chosen : List Round) (b : Bench) → All InRange chosen → random_read_write chosen b ≡ true
unfolding random_read_write cleared
random_read_write_passes chosen b fits = rounds-true chosen (zeros 32) _ fits (cleared-Agrees b)
