-- ===== src/Rtl/Pmp/Napot.antt =====
-- Which addresses a naturally aligned region matches.
use native.Mathlib.Nat.{
  pow-suc, one-le-pow, div-div-eq-div-mul, pow-le-pow_right, div-eq_of_lt-le, div-lt_iff_lt-mul,
  le-div_iff_mul-le, mod-eq_of_lt,
}
use sisrv_platform.Prelude.{
  ℕ, zero, suc, ◌+◌, ◌-◌, ◌*◌, ◌/◌, ◌%◌, ◌^◌, ◌≤◌, ◌<◌, ◌≡◌, refl, sym, ap, ◌∙◌, true, false, not,
  ◌&&◌, ltb, leb, ◌==◌, if◌then◌else◌, Bool-cases, inl, inr, double, pow_add, bit_and_shifted,
  bit_and_mask, bit_and-zero, arith,
}
use sisrv_platform.Rtl.Pmp.{ones_from, napot_size_bytes, napot_base_byte, napot_matches}

-- The ones at the end of a number, by halving it.
trailing : ℕ → ℕ → ℕ
trailing zero x = 0
trailing (suc n) x = if x % 2 == 1 then suc (trailing n (x / 2)) else 0

ones_from-trailing : (n t pa : ℕ) → ones_from n t pa ≡ t + trailing n (pa / 2 ^ t)
unfolding ones_from trailing
ones_from-trailing zero t pa = omega arith
ones_from-trailing (suc n) t pa =
    let halved : pa / 2 ^ (t + 1) ≡ pa / 2 ^ t / 2 =
      let doubled : 2 ^ (t + 1) ≡ 2 ^ t * 2 = omega (arith, pow_add t 1) in
      rw doubled (sym (div-div-eq-div-mul pa (2 ^ t) 2)) in
    ground (arith, ones_from-trailing n (t + 1) pa, ap (trailing n) halved)

-- An address register that ends in a clear bit and k ones.
abbrev pub register : ℕ → ℕ → ℕ
register k q = q * 2 ^ suc k + (2 ^ k - 1)

trailing-register : (n k q : ℕ) → k < n → trailing n (register k q) ≡ k
unfolding trailing
trailing-register zero k q h = absurd (omega arith)
trailing-register (suc n) zero q h = ground arith
trailing-register (suc n) (suc k) q h =
    let twice : register (suc k) q ≡ 2 * register k q + 1 =
      omega (arith, double q (suc k), pow-suc 2 k, one-le-pow k 2) in
    let odd : register (suc k) q % 2 ≡ 1 = omega (arith, twice) in
    let half : register (suc k) q / 2 ≡ register k q = omega (arith, twice) in
    ground (arith, odd, ap (trailing n) half, trailing-register n k q (omega arith))

-- A region of 8 * 2 ^ k bytes, the q-th of its size, below 2 ^ 32.
module _ (k q : ℕ) (inside : (q + 1) * (8 * 2 ^ k) ≤ 2 ^ 32) where
  spread : (q + 1) * (8 * 2 ^ k) ≡ 8 * (q * 2 ^ k) + 8 * 2 ^ k
  spread = grind arith

  register_sum : register k q + 1 ≡ 2 * (q * 2 ^ k) + 2 ^ k
  register_sum = omega (arith, double q k, one-le-pow k 2)

  short : k < 32
  short = elim (Bool-cases (ltb k 32)) [
    | inl few ↦ ground arith
    | inr many ↦
        let large : 2 ^ 32 ≤ 2 ^ k =
          pow-le-pow_right {n = 2} (omega arith) {i = 32} {j = k} (ground arith) in
        absurd (omega (arith, spread))
  ]

  not_all_ones : (register k q == 0xFFFF_FFFF) ≡ false
  not_all_ones = ground (arith, register_sum, spread, one-le-pow k 2)

  napot_size_bytes-register : napot_size_bytes (register k q) ≡ 8 * 2 ^ k % 2 ^ 32
  unfolding napot_size_bytes
  napot_size_bytes-register =
      let one : register k q / 1 ≡ register k q = omega arith in
      let none_more : 0 + k ≡ k = omega arith in
      rw (
        not_all_ones,
        ones_from-trailing 32 0 (register k q),
        one,
        trailing-register 32 k q short,
        none_more,
      )

module _ (k q : ℕ) (inside : (q + 1) * (8 * 2 ^ k) ≤ 2 ^ 32) (small : 8 * 2 ^ k < 2 ^ 32) where
  -- The bytes below the region's size, as a power of two, and the sizes in the address space.
  size : 8 * 2 ^ k ≡ 2 ^ (k + 3)
  size = omega (arith, pow_add k 3)

  few : k < 29
  few = elim (Bool-cases (ltb k 29)) [
    | inl less ↦ ground arith
    | inr many ↦
        let large : 2 ^ 29 ≤ 2 ^ k =
          pow-le-pow_right {n = 2} (omega arith) {i = 29} {j = k} (ground arith) in
        absurd (omega arith)
  ]

  sizes : 2 ^ (29 - k) * 2 ^ (k + 3) ≡ 2 ^ 32
  sizes =
      let together : 29 - k + (k + 3) ≡ 32 = omega (arith, few) in
      sym (pow_add (29 - k) (k + 3)) ∙ ap (λ (n : ℕ). 2 ^ n) together

  mask : 2 ^ 32 - 1 - (8 * 2 ^ k + (2 ^ 32 - 1)) % 2 ^ 32 ≡ (2 ^ (29 - k) - 1) * 2 ^ (k + 3)
  mask =
      let scaled : (2 ^ (29 - k) - 1) * 2 ^ (k + 3) + 2 ^ (k + 3) ≡ 2 ^ 32 =
        let more : 2 ^ (29 - k) - 1 + 1 ≡ 2 ^ (29 - k) = omega (arith, one-le-pow (29 - k) 2) in
        let apart : (2 ^ (29 - k) - 1 + 1) * 2 ^ (k + 3) ≡ 2 ^ 32 = rw more sizes in
        grind (arith, apart) in
      omega (arith, scaled, size, one-le-pow k 2)

  region : q * (8 * 2 ^ k) ≡ 8 * (q * 2 ^ k)
  region = grind arith

  start : register k q * 4 % 2 ^ 32 / 2 ^ (k + 3) ≡ q
  start =
      div-eq_of_lt-le {k = q} (2 ^ (k + 3))
        (rw (← size)
          (omega (arith, register_sum k q inside, spread k q inside, region, one-le-pow k 2)))
        (rw (← size) (omega (arith, register_sum k q inside, spread k q inside, one-le-pow k 2)))

  napot_base_byte-register : napot_base_byte (register k q) ≡ q * (8 * 2 ^ k)
  unfolding napot_base_byte
  napot_base_byte-register =
      let low : 8 * 2 ^ k % 2 ^ 32 ≡ 8 * 2 ^ k = omega arith in
      let within : q < 2 ^ (29 - k) = rw start at (
        (div-lt_iff_lt-mul {k = 2 ^ (k + 3)} {x = register k q * 4 % 2 ^ 32} {y = 2 ^ (29 - k)}
            (rw (← size) (omega (arith, one-le-pow k 2)))).1
          (rw sizes (omega arith))) in
      rw
        (
          napot_size_bytes-register k q inside,
          low,
          mask,
          bit_and_shifted (k + 3) (register k q * 4 % 2 ^ 32) (2 ^ (29 - k) - 1),
          start,
          bit_and_mask (29 - k) q,
        )
        (rw (mod-eq_of_lt within, size) refl)

  within_region :
      (byte_addr : ℕ)
      → (leb (q * (8 * 2 ^ k)) byte_addr && ltb byte_addr ((q + 1) * (8 * 2 ^ k)))
        ≡ (byte_addr / (8 * 2 ^ k) == q)
  within_region byte_addr =
      let positive : 0 < 8 * 2 ^ k = omega (arith, one-le-pow k 2) in
      ground (
        arith,
        le-div_iff_mul-le {k = 8 * 2 ^ k} {x = q} {y = byte_addr} positive,
        div-lt_iff_lt-mul {k = 8 * 2 ^ k} {x = byte_addr} {y = q + 1} positive,
      )

whole_base :
    (k q : ℕ)
    → (q + 1) * (8 * 2 ^ k) ≤ 2 ^ 32
    → 8 * 2 ^ k % 2 ^ 32 ≡ 0
    → napot_base_byte (register k q) ≡ 0
unfolding napot_base_byte
whole_base k q inside wrapped =
    rw (napot_size_bytes-register k q inside, wrapped) (bit_and-zero (register k q * 4 % 2 ^ 32))

-- The register of a naturally aligned region of 8 * 2 ^ k bytes, the q-th of its size and inside the
-- address space, matches the addresses of the region; but a region that ends where the address space
-- ends matches nothing, since its end wraps to 0.
pub napot_matches-register :
    (k q byte_addr : ℕ)
    → (q + 1) * (8 * 2 ^ k) ≤ 2 ^ 32
    → napot_matches byte_addr (register k q)
      ≡ (byte_addr / (8 * 2 ^ k) == q && not ((q + 1) * (8 * 2 ^ k) == 2 ^ 32))
unfolding napot_matches
napot_matches-register k q byte_addr inside = elim (Bool-cases (ltb (8 * 2 ^ k) (2 ^ 32))) [
  | inl small ↦
      let small' : 8 * 2 ^ k < 2 ^ 32 = ground arith in
      let low : 8 * 2 ^ k % 2 ^ 32 ≡ 8 * 2 ^ k = omega arith in
      let sum : q * (8 * 2 ^ k) + 8 * 2 ^ k ≡ (q + 1) * (8 * 2 ^ k) = grind arith in
      rw
        (napot_base_byte-register k q inside small', napot_size_bytes-register k q inside, low, sum)
        (ground (arith, within_region k q inside small' byte_addr))
  | inr all ↦
      let full : 8 * 2 ^ k ≡ 2 ^ 32 = ground (arith, spread k q inside) in
      let ends : ((q + 1) * (8 * 2 ^ k) == 2 ^ 32) ≡ true = ground (arith, spread k q inside) in
      let wrapped : 8 * 2 ^ k % 2 ^ 32 ≡ 0 = omega (arith, full) in
      rw (whole_base k q inside wrapped, napot_size_bytes-register k q inside, wrapped, ends)
        (ground arith)
]
