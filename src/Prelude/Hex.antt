-- ===== src/Prelude/Hex.antt =====
-- Hexadecimal fields of a text.
use Prim.Native.Nat.{ℕ}
use mathlib.Core.Path.{◌≡◌}
use mathlib.Core.Bool.{Bool, true, false}
use mathlib.Core.List.{[], ◌∷◌}
use native.Mathlib.Omega.{arith}
use sisrv_platform.Prelude.Lists.{All}
use sisrv_platform.Prelude.Strings.{Text, is_hex, is_space, is_break, parse_hex}

-- A field: one or more hexadecimal digits.
abbrev pub IsHex : Text → Type 0
IsHex = All (λ c. is_hex c ≡ true)

pub record Field : Type 0 where
  pub first : ℕ
  pub more : Text
  pub digits : IsHex (first ∷ more)

abbrev pub field_text : Field → Text
field_text f = f.first ∷ f.more

abbrev pub field_value : Field → ℕ
field_value f = parse_hex 0 (field_text f)

pub hex-not_space : (c : ℕ) → is_hex c ≡ true → is_space c ≡ false
hex-not_space c h = ground arith

pub hex-not_break : (c : ℕ) → is_hex c ≡ true → is_break c ≡ false
hex-not_break c h = ground arith

pub All-weaken :
    (p q : ℕ → Bool)
    → ((c : ℕ) → p c ≡ true → q c ≡ false)
    → (s : Text) → All (λ c. p c ≡ true) s
    → All (λ c. q c ≡ false) s
All-weaken p q f [] _ = tt
All-weaken p q f (c ∷ s) (h, hs) = (f c h, All-weaken p q f s hs)
