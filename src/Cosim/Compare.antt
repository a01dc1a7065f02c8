-- ===== src/Cosim/Compare.antt =====
-- `compare_commits` of verification/cosim/spike_lockstep.py.
pub mod Verdict
use sisrv_platform.Prelude.{
  ℕ, zero, suc, ◌+◌, ◌-◌, ◌≤◌, ◌<◌, min, ◌≡◌, refl, ap, ◌⊎◌, inl, inr, Bool, true, false, not, ◌||◌,
  ◌&&◌, Option, none, some, List, [], ◌∷◌, arith, Result, ok, err, ◌>>=◌, ◌>>◌, ensure, ltb, leb,
  ◌==◌, if◌then◌else◌, length, take, get_elem?, Bool-cases,
}
use sisrv_platform.Cosim.Logs.{Commit}

-- Why a seed fails; the messages carry the seed and these numbers.
pub data Failure : Type 0 where
  no_spike_trace : ℕ → Failure
  no_rtl_trace : ℕ → Failure
  insufficient : (seed spike rtl need : ℕ) → Failure
  index_error : ℕ → Failure
  mismatch : (seed idx spc sin rpc rin : ℕ) → Failure

abbrev pub is_empty {ℓ} : {A : Type ℓ} → List A → Bool
is_empty [] = true
is_empty (x ∷ xs) = false

-- The loop over the indices below the limit, with the rounds left and what is left of each trace
-- from the index on; an index past the end of a trace raises.
unfoldable pub compare_from : ℕ → ℕ → ℕ → List Commit → List Commit → Result Failure (Unit {0})
compare_from seed zero idx spike rtl = ok tt
compare_from seed (suc left) idx [] rtl = err (index_error idx)
compare_from seed (suc left) idx (s ∷ spike) [] = err (index_error idx)
compare_from seed (suc left) idx ((spc, sin) ∷ spike) ((rpc, rin) ∷ rtl) =
    let next = compare_from seed left (idx + 1) spike rtl in
    if not (spc == rpc) || not (sin == rin) then err (mismatch seed idx spc sin rpc rin) else next

unfoldable pub compare_commits : ℕ → List Commit → List Commit → ℕ → Result Failure (Unit {0})
compare_commits seed spike_commits rtl_commits min_required = do
  ensure (not (is_empty spike_commits)) (no_spike_trace seed)
  ensure (not (is_empty rtl_commits)) (no_rtl_trace seed)
  let limit = min (length spike_commits) (length rtl_commits)
  ensure (not (ltb limit min_required))
      (insufficient seed (length spike_commits) (length rtl_commits) min_required)
  compare_from seed limit 0 spike_commits rtl_commits
