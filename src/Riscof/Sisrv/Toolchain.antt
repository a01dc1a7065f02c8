-- ===== src/Riscof/Sisrv/Toolchain.antt =====
-- The first prefix of the tools that is installed, as the two plugins look for it.
use sisrv_platform.Prelude.{
  ◌≡◌, refl, inl, inr, Bool, Option, none, some, List, [], ◌∷◌, ◌++◌, Text, codes, keep, Bool-cases,
}
use sisrv_platform.Riscof.Sisrv.{first_fallback}

abbrev pub head {ℓ} : {A : Type ℓ} → List A → Option A
head [] = none
head (x ∷ xs) = some x

-- Of the prefixes whose compiler is found, the first.
abbrev pub first_installed : (Text → Bool) → List Text → Option Text
first_installed which prefixes = head (keep (λ prefix. which (prefix ++ codes "gcc")) prefixes)

pub first_fallback_lem :
    (which : Text → Bool) (prefixes : List Text)
    → first_fallback which prefixes ≡ first_installed which prefixes
unfolding first_fallback
first_fallback_lem which [] = refl
first_fallback_lem which (prefix ∷ prefixes) = elim (Bool-cases (which (prefix ++ codes "gcc"))) [
  | inl here ↦ rw here refl
  | inr gone ↦ rw gone (first_fallback_lem which prefixes)
]
