-- ===== src/Prelude/Fields.antt =====
-- Bit fields that are put side by side by `|`, single bits, and masks that are shifted.
use Prim.Native.Nat.{
  ℕ, zero, suc, ◌+◌, ◌-◌, ◌*◌, ◌/◌, ◌%◌, ◌^◌, ◌≤◌, ◌<◌, bit_and, bit_or, bit_xor, bit_xor-bitwise,
  bit_and-bitwise, differ,
}
use mathlib.Core.Path.{◌≡◌, refl, sym, ◌∙◌, ap}
use native.Mathlib.Nat.{pow-suc, div-div-eq-div-mul, mod-eq-sub-div-mul, div-mul-le_self, suc-add}
use native.Mathlib.Omega.{arith}
use sisrv_platform.Prelude.Bits.{
  digits_last, bit_and_last, bit_or_last, bit_or_fields, bit_and-zero,
}

-- A number that ends in k zeros takes any number of k bits.
pub bit_or_disjoint : (k acc lo : ℕ) → acc % 2 ^ k ≡ 0 → lo < 2 ^ k → bit_or acc lo ≡ acc + lo
bit_or_disjoint k acc lo clear fits =
    let whole : acc / 2 ^ k * 2 ^ k ≡ acc = grind arith in
    rw whole at (bit_or_fields k (acc / 2 ^ k) lo fits)

pub double : (m k : ℕ) → m * 2 ^ suc k ≡ 2 * (m * 2 ^ k)
double m k = omega (arith, ap (λ (t : ℕ). m * t) (pow-suc 2 k))

div_pow-suc : (a k : ℕ) → a / 2 ^ suc k ≡ a / 2 / 2 ^ k
div_pow-suc a k =
    let shift : 2 ^ suc k ≡ 2 * 2 ^ k = omega (arith, pow-suc 2 k) in
    rw shift (sym (div-div-eq-div-mul a 2 (2 ^ k)))

mod_pow-suc : (a k : ℕ) → a % 2 ^ suc k ≡ 2 * (a / 2 % 2 ^ k) + a % 2
mod_pow-suc a k =
    let q : ℕ = a / 2 / 2 ^ k in
    let rest : a % 2 ^ suc k ≡ a - q * 2 ^ suc k =
      rw (mod-eq-sub-div-mul a (2 ^ suc k), div_pow-suc a k) in
    omega
      (arith, rest, double q k, mod-eq-sub-div-mul (a / 2) (2 ^ k), div-mul-le_self (a / 2) (2 ^ k))

-- A mask that is shifted selects the bits above the k lowest.
pub bit_and_shifted : (k a m : ℕ) → bit_and a (m * 2 ^ k) ≡ bit_and (a / 2 ^ k) m * 2 ^ k
bit_and_shifted zero a m = ground arith
bit_and_shifted (suc k) a m = ground (
  arith,
  double m k,
  div_pow-suc a k,
  bit_and_last a (m * 2 ^ suc k),
  bit_and_shifted k (a / 2) m,
  double (bit_and (a / 2 / 2 ^ k) m) k,
)

-- Bits that are set above the k lowest leave those alone.
pub bit_or_shifted : (k a m : ℕ) → bit_or a (m * 2 ^ k) ≡ bit_or (a / 2 ^ k) m * 2 ^ k + a % 2 ^ k
bit_or_shifted zero a m = ground arith
bit_or_shifted (suc k) a m = ground (
  arith,
  double m k,
  div_pow-suc a k,
  mod_pow-suc a k,
  bit_or_last a (m * 2 ^ suc k),
  bit_or_shifted k (a / 2) m,
  double (bit_or (a / 2 / 2 ^ k) m) k,
)

pub pow_add : (j k : ℕ) → 2 ^ (j + k) ≡ 2 ^ j * 2 ^ k
pow_add zero k = ground arith
pow_add (suc j) k =
    let ih : 2 ^ (j + k) ≡ 2 ^ j * 2 ^ k = pow_add j k in
    rw (suc-add, pow-suc 2 (j + k), pow-suc 2 j, ih) (grind arith)

differ_bits : (x y : ℕ) → x < 2 → y < 2 → differ x y ≡ (x + y) % 2
differ_bits zero y p q = omega arith
differ_bits (suc zero) zero p q = omega arith
differ_bits (suc zero) (suc zero) p q = omega arith
differ_bits (suc zero) (suc (suc y)) p q = absurd (omega arith)
differ_bits (suc (suc x)) y p q = absurd (omega arith)

-- The lowest binary digit apart.
pub bit_xor_last : (a b : ℕ) → bit_xor a b ≡ bit_xor (a / 2) (b / 2) * 2 + (a + b) % 2
bit_xor_last zero b = simp bit_xor-bitwise (omega arith)
bit_xor_last (suc a) b = simp bit_xor-bitwise (
    omega (
      arith,
      digits_last (λ y. y) differ a b,
      differ_bits (suc a % 2) (b % 2) (omega arith) (omega arith),
    ))

bit_xor_self_below : (n a : ℕ) → a ≤ n → bit_xor a a ≡ 0
bit_xor_self_below n zero h = refl
bit_xor_self_below zero (suc a) h = absurd (omega arith)
bit_xor_self_below (suc n) (suc a) h =
    omega (arith, bit_xor_last (suc a) (suc a), bit_xor_self_below n (suc a / 2) (omega arith))

pub bit_xor_self : (a : ℕ) → bit_xor a a ≡ 0
bit_xor_self a = bit_xor_self_below a a (omega arith)

bit_and_comm_below : (n a b : ℕ) → a ≤ n → bit_and a b ≡ bit_and b a
bit_and_comm_below n zero b h = bit_and-bitwise 0 b ∙ sym (bit_and-zero b)
bit_and_comm_below zero (suc a) b h = absurd (omega arith)
bit_and_comm_below (suc n) (suc a) b h = omega (
  arith,
  bit_and_last (suc a) b,
  bit_and_last b (suc a),
  bit_and_comm_below n (suc a / 2) (b / 2) (omega arith),
)

pub bit_and_comm : (a b : ℕ) → bit_and a b ≡ bit_and b a
bit_and_comm a b = bit_and_comm_below a a b (omega arith)
