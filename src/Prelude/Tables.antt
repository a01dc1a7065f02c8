-- ===== src/Prelude/Tables.antt =====
-- A number as a table of fields of equal width, the first in its lowest bits.
use Prim.Native.Nat.{ℕ, suc, ◌+◌, ◌-◌, ◌*◌, ◌/◌, ◌%◌, ◌^◌, ◌<◌, bit_and, bit_or}
use mathlib.Core.Path.{◌≡◌, sym, ◌∙◌, ap, subst}
use mathlib.Core.Logic.{inl, inr}
use native.Mathlib.Nat.{
  one-le-pow, div-div-eq-div-mul, div-eq_of_lt, mod-eq_of_lt, mod-eq-sub-div-mul, div-mul-le_self,
  mod-lt, add-mul, mul-add-div_right, mul-add-mod_self_right,
}
use sisrv_platform.Prelude.Tests.{Bool-cases, ltb, ◌==◌, if◌then◌else◌}
use native.Mathlib.Omega.{arith}
use sisrv_platform.Prelude.Fields.{pow_add, bit_and_shifted, bit_or_shifted}
use sisrv_platform.Prelude.Bits.{bit_or_fields, bit_and_mask}

-- Division and remainder of a number that is put together from two parts.
module _ (p : ℕ) (positive : 0 < p) where
  div_parts : (hi lo : ℕ) → lo < p → (hi * p + lo) / p ≡ hi
  div_parts hi lo h = mul-add-div_right positive hi lo ∙ rw (div-eq_of_lt h) (omega arith)

  mod_parts : (hi lo : ℕ) → lo < p → (hi * p + lo) % p ≡ lo
  mod_parts hi lo h = mul-add-mod_self_right hi p lo ∙ mod-eq_of_lt h

  -- What stands above a field does not show in it.
  below_parts : (b r x lo : ℕ) → (x * (p * (b * r)) + lo) / p % b ≡ lo / p % b
  below_parts b r x lo =
      let shape : x * (p * (b * r)) ≡ x * r * b * p = grind arith in
      rw (shape, mul-add-div_right positive (x * r * b) lo)
        (mul-add-mod_self_right (x * r) b (lo / p))

-- The number in the field of w bits at place i.
abbrev pub field : ℕ → ℕ → ℕ → ℕ
field w i n = n / 2 ^ (i * w) % 2 ^ w

-- The field at a place, set; what a mask and an `or` make of it, as arithmetic.
pub set_field : ℕ → ℕ → ℕ → ℕ → ℕ
set_field w i c n = (n / 2 ^ (i * w) / 2 ^ w * 2 ^ w + c) * 2 ^ (i * w) + n % 2 ^ (i * w)

module _ (w : ℕ) where
  positive : (k : ℕ) → 0 < 2 ^ k
  positive k = omega (arith, one-le-pow k 2)

  -- The place of a later field.
  later_place : (i d : ℕ) → 2 ^ ((i + suc d) * w) ≡ 2 ^ (i * w) * (2 ^ w * 2 ^ (d * w))
  later_place i d =
      let split : (i + suc d) * w ≡ i * w + (w + d * w) = grind arith in
      rw (split, pow_add (i * w) (w + d * w), pow_add w (d * w))

  set_field-above_place :
      (i c n : ℕ) → set_field w i c n / 2 ^ (i * w) ≡ n / 2 ^ (i * w) / 2 ^ w * 2 ^ w + c
  unfolding set_field
  set_field-above_place i c n =
      div_parts (2 ^ (i * w)) (positive (i * w)) (n / 2 ^ (i * w) / 2 ^ w * 2 ^ w + c)
        (n % 2 ^ (i * w)) (mod-lt n (positive (i * w)))

  field-set_field_same : (i c n : ℕ) → c < 2 ^ w → field w i (set_field w i c n) ≡ c
  field-set_field_same i c n h =
      rw (set_field-above_place i c n)
        (mod_parts (2 ^ w) (positive w) (n / 2 ^ (i * w) / 2 ^ w) c h)

  div_later : (i d n : ℕ) → n / 2 ^ ((i + suc d) * w) ≡ n / 2 ^ (i * w) / 2 ^ w / 2 ^ (d * w)
  div_later i d n = rw (later_place i d) (
      sym (div-div-eq-div-mul n (2 ^ (i * w)) (2 ^ w * 2 ^ (d * w)))
      ∙ sym (div-div-eq-div-mul (n / 2 ^ (i * w)) (2 ^ w) (2 ^ (d * w))))

  field-set_field_above :
      (i d c n : ℕ) → c < 2 ^ w → field w (i + suc d) (set_field w i c n) ≡ field w (i + suc d) n
  field-set_field_above i d c n h = rw (
    div_later i d (set_field w i c n),
    div_later i d n,
    set_field-above_place i c n,
    div_parts (2 ^ w) (positive w) (n / 2 ^ (i * w) / 2 ^ w) c h,
  )

  field-set_field_below : (i d c n : ℕ) → field w i (set_field w (i + suc d) c n) ≡ field w i n
  unfolding set_field
  field-set_field_below i d c n =
      let q : ℕ = 2 ^ (i * w) in
      let p : ℕ = 2 ^ ((i + suc d) * w) in
      let low : (x : ℕ) → (x * p + n % p) / q % 2 ^ w ≡ n % p / q % 2 ^ w =
        λ x. rw (later_place i d) (below_parts q (positive (i * w)) (2 ^ w) (2 ^ (d * w)) x _) in
      let whole : n / p * p + n % p ≡ n =
        omega (arith, mod-eq-sub-div-mul n p, div-mul-le_self n p) in
      low (n / p / 2 ^ w * 2 ^ w + c) ∙ sym (low (n / p)) ∙ ap (λ (t : ℕ). t / q % 2 ^ w) whole

-- A field that is set is read back, and every other field is left alone.
pub field-set_field :
    (w i j c n : ℕ)
    → c < 2 ^ w
    → field w j (set_field w i c n) ≡ (if i == j then c else field w j n)
field-set_field w i j c n h = elim (Bool-cases (i == j)) [
  | inl same ↦
      let at_once : j ≡ i = ground arith in rw (same, at_once) (field-set_field_same w i c n h)
  | inr other ↦ elim (Bool-cases (ltb i j)) [
    | inl above ↦
        let place : j ≡ i + suc (j - i - 1) = ground arith in
        rw other (
          subst (λ (t : ℕ). field w t (set_field w i c n) ≡ field w t n) (sym place)
            (field-set_field_above w i (j - i - 1) c n h))
    | inr below ↦
        let place : i ≡ j + suc (i - j - 1) = ground arith in
        rw other (
          subst (λ (t : ℕ). field w j (set_field w t c n) ≡ field w j n) (sym place)
            (field-set_field_below w j (i - j - 1) c n))
  ]
]

-- (n & ~mask) | (c << place), with the mask of a field of w bits at the place.
pub masked-set_field :
    (w i c n : ℕ)
    → c < 2 ^ w
    → bit_or (n - bit_and n ((2 ^ w - 1) * 2 ^ (i * w))) (c * 2 ^ (i * w)) ≡ set_field w i c n
unfolding set_field
masked-set_field w i c n h =
    let p : ℕ = 2 ^ (i * w) in
    let b : ℕ = 2 ^ w in
    let above : ℕ = n / p / b * b in
    let selected : bit_and n ((b - 1) * p) ≡ n / p % b * p =
      rw (bit_and_shifted (i * w) n (b - 1), bit_and_mask w (n / p)) in
    let cleared : n - bit_and n ((b - 1) * p) ≡ above * p + n % p =
      let whole : n / p * p + n % p ≡ n =
        omega (arith, mod-eq-sub-div-mul n p, div-mul-le_self n p) in
      let parts : n / p ≡ above + n / p % b =
        omega (arith, mod-eq-sub-div-mul (n / p) b, div-mul-le_self (n / p) b) in
      let scaled : n / p * p ≡ above * p + n / p % b * p =
        ap (λ (t : ℕ). t * p) parts ∙ add-mul above (n / p % b) p in
      omega (arith, whole, scaled, selected) in
    rw (
      cleared,
      bit_or_shifted (i * w) (above * p + n % p) c,
      div_parts p (positive w (i * w)) above (n % p) (mod-lt n (positive w (i * w))),
      mod_parts p (positive w (i * w)) above (n % p) (mod-lt n (positive w (i * w))),
      bit_or_fields w (n / p / b) c h,
    )
