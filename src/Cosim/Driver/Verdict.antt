-- ===== src/Cosim/Driver/Verdict.antt =====
-- What it means that the lock-step run ends with code 0.
use mathlib.Core.List.{Perm, Permᴰ}
use mathlib.Core.Logic.{∥∥₁_elim}
use sisrv_platform.Prelude.{
  ℕ, zero, suc, ◌+◌, ◌≤◌, ◌<◌, min, ◌≡◌, ◌≢◌, ◌↔◌, refl, sym, subst, ==_iff, ◌∙◌, Bool, true, false,
  ◌&&◌, Option, none, some, List, [], ◌∷◌, arith, Text, Result, ok, err, >>=-eq-ok, ensure, ◌==◌,
  all, length, take, Bool-cases, inl, inr,
}
use sisrv_platform.Cosim.Logs.{Commit}
use sisrv_platform.Cosim.Compare.{Failure, compare_commits}
use sisrv_platform.Cosim.Compare.Verdict.{compare_commits-ok_iff}
use sisrv_platform.Cosim.Driver.{
  Crash, SeedTools, run_spike, run_verilator, caught, run_one_seed, task_results, returns, drain,
  main, find_toolchain, toolchain_prefixes, gcc_failed, elf_to_hex_failed,
}

abbrev passes : Result Crash (Option Failure) → Bool
passes (ok none) = true
passes (ok (some failure)) = false
passes (err crash) = false

drain-passes :
    (results : List (Result Crash (Option Failure))) (completed printed : ℕ)
    → (drain results completed printed).0 ≡ returns 0
    → all passes results ≡ true
unfolding drain
drain-passes [] c p h = refl
drain-passes (err crash ∷ results) c p h = cc
drain-passes (ok (some failure) ∷ results) c p h = ground arith
drain-passes (ok none ∷ results) c p h = drain-passes results (c + 1) _ h

passes-drain :
    (results : List (Result Crash (Option Failure))) (completed printed : ℕ)
    → all passes results ≡ true
    → (drain results completed printed).0 ≡ returns 0
unfolding drain
passes-drain [] c p h = refl
passes-drain (err crash ∷ results) c p h = cc
passes-drain (ok (some failure) ∷ results) c p h = cc
passes-drain (ok none ∷ results) c p h = passes-drain results (c + 1) _ h

Bool-set : IsSet Bool
Bool-set = hlevel

swap_and : (a b c : Bool) → a && (b && c) ≡ b && (a && c)
swap_and a b c = ground arith

and_parts : (a b : Bool) → a && b ≡ true → (a ≡ true) × (b ≡ true)
and_parts a b h = ground arith

all-permᴰ {ℓ} : {A : Type ℓ} (p : A → Bool) {xs ys : List A} → Permᴰ xs ys → all p xs ≡ all p ys
all-permᴰ p Permᴰ.nil = refl
all-permᴰ p (Permᴰ.cons e d) = rw (e, all-permᴰ p d)
all-permᴰ p (Permᴰ.swap {a} {b} {l} e f) = rw (← e, ← f) (swap_and (p a) (p b) (all p l))
all-permᴰ p (Permᴰ.trans d e) = all-permᴰ p d ∙ all-permᴰ p e

all-perm {ℓ} : {A : Type ℓ} (p : A → Bool) {xs ys : List A} → Perm xs ys → all p xs ≡ all p ys
all-perm p {xs} {ys} d = ∥∥₁_elim d (Bool-set (all p xs) (all p ys)) (all-permᴰ p)

-- The seed was built and run, and its two traces agree, on as many commits as the shorter one has
-- and no fewer than are asked for.
pub record InLockStep (tools : SeedTools) (insns : ℕ) : Type 0 where
  pub spike : List Commit
  pub rtl : List Commit
  pub of_spike : run_spike tools.spike_run ≡ ok spike
  pub of_rtl : run_verilator tools.sim_run ≡ ok rtl
  pub enough : insns ≤ min (length spike) (length rtl)
  pub agree :
      take (min (length spike) (length rtl)) spike ≡ take (min (length spike) (length rtl)) rtl

-- A worker that reports nothing has seen the two simulators in lock step.
pub run_one_seed-InLockStep :
    (tools : SeedTools) (seed insns : ℕ)
    → run_one_seed tools seed insns ≡ ok none
    → InLockStep tools insns
unfolding run_one_seed
run_one_seed-InLockStep tools seed insns h =
    let (_, _, h1) = >>=-eq-ok (ensure tools.gcc_ok gcc_failed) _ h in
    let (_, _, h2) = >>=-eq-ok (ensure tools.elf_to_hex_ok elf_to_hex_failed) _ h1 in
    let (spike, of_spike, h3) = >>=-eq-ok (run_spike tools.spike_run) _ h2 in
    let (rtl, of_rtl, h4) = >>=-eq-ok (run_verilator tools.sim_run) _ h3 in
    let (_, _, enough, agree) =
      (compare_commits-ok_iff seed spike rtl insns).0
        (uncaught (compare_commits seed spike rtl insns) h4) in
    record {
      spike = spike;
      rtl = rtl;
      of_spike = of_spike;
      of_rtl = of_rtl;
      enough = enough;
      agree = agree;
    }
  where
    uncaught :
        (r : Result Failure (Unit {0}))
        → ◌≡◌ {A = Result Crash (Option Failure)} (ok (caught r)) (ok none)
        → r ≡ ok tt
    uncaught (ok _) e = refl
    uncaught (err failure) e = cc

task_results-InLockStep :
    (tools : ℕ → SeedTools) (insns n first : ℕ)
    → all passes (task_results tools insns n first) ≡ true
    → (seed : ℕ) → first ≤ seed
    → seed < first + n
    → InLockStep (tools seed) insns
unfolding task_results
task_results-InLockStep tools insns zero first h seed p q = absurd (omega arith)
task_results-InLockStep tools insns (suc n) first h seed p q =
    let (now, later) = and_parts (passes (run_one_seed (tools first) first insns)) _ h in
    elim (Bool-cases (first == seed)) [
      | inl same ↦
          let e : first ≡ seed = (==_iff first seed).0 same in
          subst (λ (k : ℕ). InLockStep (tools k) insns) e
            (run_one_seed-InLockStep (tools first) first insns (passed _ now))
      | inr other ↦
          task_results-InLockStep tools insns n (first + 1) later seed (ground arith) (omega arith)
    ]
  where
    passed : (r : Result Crash (Option Failure)) → passes r ≡ true → r ≡ ok none
    passed (ok none) e = refl
    passed (ok (some failure)) e = cc
    passed (err crash) e = cc

-- In whatever order the workers deliver their results, the run that ends with code 0 has found a
-- toolchain and the simulator, and every one of its seeds was in lock step.
pub main-InLockStep :
    (which : Text → Bool) (sim_is_file require_spike : Bool) (tools : ℕ → SeedTools)
    (insns seeds : ℕ) (delivered : List (Result Crash (Option Failure)))
    → Perm delivered (task_results tools insns seeds 0)
    → main which sim_is_file require_spike delivered ≡ returns 0
    → (sim_is_file ≡ true)
      × (find_toolchain which toolchain_prefixes ≢ none)
      × ((seed : ℕ) → seed < seeds → InLockStep (tools seed) insns)
unfolding main
main-InLockStep which false require_spike tools insns seeds delivered order h =
    absurd (ground arith)
main-InLockStep which true require_spike tools insns seeds delivered order h =
    let drained : (drain delivered 0 0).0 ≡ returns 0 = ground arith in
    let every : all passes (task_results tools insns seeds 0) ≡ true =
      sym (all-perm passes order) ∙ drain-passes delivered 0 0 drained in
    (
      refl,
      λ e. ground arith,
      λ seed below.
          task_results-InLockStep tools insns seeds 0 every seed (omega arith) (omega arith),
    )

-- Of two orders of the same results, one ends with code 0 exactly if the other does.
pub drain-perm :
    (xs ys : List (Result Crash (Option Failure)))
    → Perm xs ys
    → ((drain xs 0 0).0 ≡ returns 0) ↔ ((drain ys 0 0).0 ≡ returns 0)
drain-perm xs ys order = (
  λ h. passes-drain ys 0 0 (sym (all-perm passes order) ∙ drain-passes xs 0 0 h),
  λ h. passes-drain xs 0 0 (all-perm passes order ∙ drain-passes ys 0 0 h),
)
