-- ===== src/Cosim/Compare/Verdict.antt =====
-- What the verdict of `compare_commits` means for the two traces.
use sisrv_platform.Prelude.{
  ℕ, zero, suc, ◌+◌, ◌≤◌, min, ◌≡◌, ◌≢◌, ◌↔◌, refl, ap, subst, inl, inr, not, ◌||◌, some, List, [],
  ◌∷◌, arith, Result, ok, err, ◌>>◌, ensure, ltb, ◌==◌, length, take, get_elem?, Bool-cases,
}
use sisrv_platform.Cosim.Logs.{Commit}
use sisrv_platform.Cosim.Compare.{Failure, insufficient, mismatch, compare_from, compare_commits}

-- Two traces agree on their first n commits.
compare_from-agree :
    (seed n idx : ℕ) (spike rtl : List Commit)
    → n ≤ length spike
    → n ≤ length rtl
    → compare_from seed n idx spike rtl ≡ ok tt
    → take n spike ≡ take n rtl
unfolding compare_from
compare_from-agree seed zero idx spike rtl p q h = refl
compare_from-agree seed (suc n) idx [] rtl p q h = absurd (omega arith)
compare_from-agree seed (suc n) idx (s ∷ spike) [] p q h = absurd (omega arith)
compare_from-agree seed (suc n) idx ((spc, sin) ∷ spike) ((rpc, rin) ∷ rtl) p q h =
    ground (arith, compare_from-agree seed n (idx + 1) spike rtl)

agree-compare_from :
    (seed n idx : ℕ) (spike rtl : List Commit)
    → n ≤ length spike
    → n ≤ length rtl
    → take n spike ≡ take n rtl
    → compare_from seed n idx spike rtl ≡ ok tt
unfolding compare_from
agree-compare_from seed zero idx spike rtl p q h = refl
agree-compare_from seed (suc n) idx [] rtl p q h = absurd (omega arith)
agree-compare_from seed (suc n) idx (s ∷ spike) [] p q h = absurd (omega arith)
agree-compare_from seed (suc n) idx ((spc, sin) ∷ spike) ((rpc, rin) ∷ rtl) p q h =
    ground (arith, agree-compare_from seed n (idx + 1) spike rtl)

-- The comparison passes exactly when both traces have a commit, the shorter one has as many as are
-- required, and the traces agree as far as the shorter one goes.
pub compare_commits-ok_iff :
    (seed : ℕ) (spike rtl : List Commit) (need : ℕ)
    → (compare_commits seed spike rtl need ≡ ok tt) ↔ (
        (spike ≢ [])
        × (rtl ≢ [])
        × (need ≤ min (length spike) (length rtl))
        × (take (min (length spike) (length rtl)) spike
            ≡ take (min (length spike) (length rtl)) rtl))
unfolding compare_commits
compare_commits-ok_iff seed [] rtl need = (λ h. cc, λ h. absurd (h.0 refl))
compare_commits-ok_iff seed (s ∷ spike) [] need = (λ h. cc, λ h. absurd (h.1 refl))
compare_commits-ok_iff seed (s ∷ spike) (r ∷ rtl) need = (passed, passes)
  where
    n : ℕ
    n = min (length (s ∷ spike)) (length (r ∷ rtl))

    passed :
        (ensure (not (ltb n need)) (insufficient seed (length (s ∷ spike)) (length (r ∷ rtl)) need)
            >> compare_from seed n 0 (s ∷ spike) (r ∷ rtl))
          ≡ ok tt
        → (s ∷ spike ≢ []) × (r ∷ rtl ≢ []) × (need ≤ n) × (take n (s ∷ spike) ≡ take n (r ∷ rtl))
    passed h =
        let ran : compare_from seed n 0 (s ∷ spike) (r ∷ rtl) ≡ ok tt = ground arith in
        (
          λ e. cc,
          λ e. cc,
          ground arith,
          compare_from-agree seed n 0 (s ∷ spike) (r ∷ rtl) (omega arith) (omega arith) ran,
        )

    passes :
        (s ∷ spike ≢ []) × (r ∷ rtl ≢ []) × (need ≤ n) × (take n (s ∷ spike) ≡ take n (r ∷ rtl))
        → (ensure
              (not (ltb n need))
              (insufficient seed (length (s ∷ spike)) (length (r ∷ rtl)) need)
            >> compare_from seed n 0 (s ∷ spike) (r ∷ rtl))
          ≡ ok tt
    passes (_, _, enough, agree) =
        let ran =
          agree-compare_from seed n 0 (s ∷ spike) (r ∷ rtl) (omega arith) (omega arith) agree in
        ground arith

-- The traces agree before index k, and differ there.
pub record FirstDifference (k : ℕ) (spike rtl : List Commit) (s r : Commit) : Type 0 where
  pub at_spike : get_elem? spike k ≡ some s
  pub at_rtl : get_elem? rtl k ≡ some r
  pub differ : s ≢ r
  pub before : take k spike ≡ take k rtl

FirstDifference-cons :
    {k : ℕ} {spike rtl : List Commit} {s r : Commit} (c : Commit)
    → FirstDifference k spike rtl s r
    → FirstDifference (suc k) (c ∷ spike) (c ∷ rtl) s r
FirstDifference-cons c d = record {
  at_spike = d.at_spike;
  at_rtl = d.at_rtl;
  differ = d.differ;
  before = ap (λ (cs : List Commit). c ∷ cs) d.before;
}

compare_from-mismatch :
    (seed n idx : ℕ) (spike rtl : List Commit) (x k spc sin rpc rin : ℕ)
    → compare_from seed n idx spike rtl ≡ err (mismatch x k spc sin rpc rin)
    → (j : ℕ) × (k ≡ idx + j) × (x ≡ seed) × FirstDifference j spike rtl (spc, sin) (rpc, rin)
unfolding compare_from
compare_from-mismatch seed zero idx spike rtl x k spc sin rpc rin h = cc
compare_from-mismatch seed (suc n) idx [] rtl x k spc sin rpc rin h = cc
compare_from-mismatch seed (suc n) idx (s ∷ spike) [] x k spc sin rpc rin h = cc
compare_from-mismatch seed (suc n) idx ((a, b) ∷ spike) ((c, d) ∷ rtl) x k spc sin rpc rin h =
    elim (Bool-cases (not (a == c) || not (b == d))) [
      | inl here ↦
          let told : ◌≡◌ {A = Result Failure (Unit {0})} (err (mismatch seed idx a b c d))
              (err (mismatch x k spc sin rpc rin)) =
            rw here at h in
          (
            0,
            ground arith,
            ground arith,
            record {
              at_spike = ground arith;
              at_rtl = ground arith;
              differ = λ e. ground arith;
              before = refl;
            },
          )
      | inr same ↦
          let (j, kj, xs, d') =
            compare_from-mismatch seed n (idx + 1) spike rtl x k spc sin rpc rin (rw same at h) in
          let one : ◌≡◌ {A = Commit} (a, b) (c, d) = ground arith in
          (
            suc j,
            omega arith,
            xs,
            subst
                (λ (t : Commit).
                  FirstDifference (suc j) ((a, b) ∷ spike) (t ∷ rtl) (spc, sin) (rpc, rin))
                one (FirstDifference-cons (a, b) d'),
          )
    ]

-- A reported mismatch is the first index at which the traces differ, with the two commits that
-- stand there.
pub compare_commits-mismatch :
    (seed : ℕ) (spike rtl : List Commit) (need x k spc sin rpc rin : ℕ)
    → compare_commits seed spike rtl need ≡ err (mismatch x k spc sin rpc rin)
    → (x ≡ seed) × FirstDifference k spike rtl (spc, sin) (rpc, rin)
unfolding compare_commits
compare_commits-mismatch seed [] rtl need x k spc sin rpc rin h = cc
compare_commits-mismatch seed (s ∷ spike) [] need x k spc sin rpc rin h = cc
compare_commits-mismatch seed (s ∷ spike) (r ∷ rtl) need x k spc sin rpc rin h =
    let n = min (length (s ∷ spike)) (length (r ∷ rtl)) in
    let ran : compare_from seed n 0 (s ∷ spike) (r ∷ rtl) ≡ err (mismatch x k spc sin rpc rin) =
      ground arith in
    let (j, kj, xs, d) =
      compare_from-mismatch seed n 0 (s ∷ spike) (r ∷ rtl) x k spc sin rpc rin ran in
    let same : j ≡ k = omega arith in
    (xs, subst (λ (t : ℕ). FirstDifference t (s ∷ spike) (r ∷ rtl) (spc, sin) (rpc, rin)) same d)
