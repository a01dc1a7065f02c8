-- ===== src/Prelude/TextOrder.antt =====
-- The order of texts by their code points.
use mathlib.Core.Path.{◌≡◌, refl}
use mathlib.Core.Logic.{◌⊎◌, inl, inr}
use mathlib.Core.Bool.{true}
use mathlib.Core.List.{[], ◌∷◌}
use native.Mathlib.Omega.{arith}
use sisrv_platform.Prelude.Strings.{Text, text_le}

pub text_le-total : (s t : Text) → (text_le s t ≡ true) ⊎ (text_le t s ≡ true)
text_le-total [] t = inl refl
text_le-total (c ∷ s) [] = inr refl
text_le-total (c ∷ s) (d ∷ t) = ground (arith, text_le-total s t)

pub text_le_antisymm : (s t : Text) → text_le s t ≡ true → text_le t s ≡ true → s ≡ t
text_le_antisymm [] [] p q = refl
text_le_antisymm [] (d ∷ t) p q = cc
text_le_antisymm (c ∷ s) [] p q = cc
text_le_antisymm (c ∷ s) (d ∷ t) p q = ground (arith, text_le_antisymm s t)

pub text_le_trans : (s t u : Text) → text_le s t ≡ true → text_le t u ≡ true → text_le s u ≡ true
text_le_trans [] t u p q = refl
text_le_trans (c ∷ s) [] u p q = cc
text_le_trans (c ∷ s) (d ∷ t) [] p q = cc
text_le_trans (c ∷ s) (d ∷ t) (e ∷ u) p q = ground (arith, text_le_trans s t u)
