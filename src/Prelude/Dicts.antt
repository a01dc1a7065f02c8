-- ===== src/Prelude/Dicts.antt =====
-- A Python dictionary with integer keys: its entries in the order of insertion.
use Prim.Native.Nat.{ℕ, ◌<◌, max}
use mathlib.Core.Path.{◌≡◌, refl, subst}
use mathlib.Core.List.{List, [], ◌∷◌}
use native.Mathlib.Omega.{arith}
use mathlib.Core.Logic.{inl, inr}
use mathlib.Core.Option.{Option, none, some}
use sisrv_platform.Prelude.Tests.{◌==◌, ==_iff, Bool-cases, if◌then◌else◌}
use sisrv_platform.Prelude.Lists.{All}

abbrev pub Dict : Type 0
Dict = List (ℕ × ℕ)

-- d[k], where the key is present
unfoldable pub lookup : Dict → ℕ → Option ℕ
lookup [] k = none
lookup ((j, v) ∷ d) k = if j == k then some v else lookup d k

abbrev pub or_else : Option ℕ → ℕ → ℕ
or_else none z = z
or_else (some v) z = v

-- d.get(k, default)
abbrev pub lookup_or : Dict → ℕ → ℕ → ℕ
lookup_or d k default = or_else (lookup d k) default

-- d[k] = v
unfoldable pub insert : Dict → ℕ → ℕ → Dict
insert [] k v = (k, v) ∷ []
insert ((j, w) ∷ d) k v = if j == k then (k, v) ∷ d else (j, w) ∷ insert d k v

-- max(d), over the keys; 0 on the empty dictionary, where Python raises.
unfoldable pub max_key : Dict → ℕ
max_key [] = 0
max_key ((j, v) ∷ d) = max j (max_key d)

pub lookup-insert :
    (d : Dict) (k v j : ℕ) → lookup (insert d k v) j ≡ (if k == j then some v else lookup d j)
unfolding lookup insert
lookup-insert [] k v j = refl
lookup-insert ((i, w) ∷ d) k v j = ground (arith, lookup-insert d k v j)

pub lookup-beyond : (d : Dict) (k : ℕ) → max_key d < k → lookup d k ≡ none
unfolding lookup max_key
lookup-beyond [] k h = refl
lookup-beyond ((i, w) ∷ d) k h = ground (arith, lookup-beyond d k)

-- A value that is found stands in an entry, so it has what every entry has.
pub All-lookup :
    (P : ℕ → ℕ → Type 0) (d : Dict) (k : ℕ) {v : ℕ}
    → All (λ e. P e.0 e.1) d
    → lookup d k ≡ some v
    → P k v
unfolding lookup
All-lookup P [] k h e = cc
All-lookup P ((i, w) ∷ d) k {v} (p, h) e = elim (Bool-cases (i == k)) [
  | inl same ↦
      let ik : i ≡ k = (==_iff i k).0 same in
      let wv : w ≡ v = ground arith in subst (λ (t : ℕ). P k t) wv (subst (λ (t : ℕ). P t w) ik p)
  | inr other ↦ All-lookup P d k h (ground arith)
]

-- A predicate of every entry survives an insertion of an entry that has it.
pub All-insert :
    (P : ℕ → ℕ → Type 0) (d : Dict) (k v : ℕ)
    → All (λ e. P e.0 e.1) d
    → P k v
    → All (λ e. P e.0 e.1) (insert d k v)
unfolding insert
All-insert P [] k v h p = (p, tt)
All-insert P ((i, w) ∷ d) k v h p = ground (arith, All-insert P d k v)
