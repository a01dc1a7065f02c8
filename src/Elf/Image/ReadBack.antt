-- ===== src/Elf/Image/ReadBack.antt =====
-- What the simulator reads out of a file that `write_hex` wrote.
use sisrv_platform.Prelude.{
  ℕ, ◌+◌, ◌*◌, ◌%◌, ◌<◌, ◌≤◌, ◌≡◌, refl, [], ◌∷◌, inl, inr, arith, Dict, lookup, lookup_or,
  lookup-beyond, Bool-cases, ltb, if◌then◌else◌, max_key, ◌∙◌,
}
use sisrv_platform.Elf.Image.{align_down, write_hex, rounds_of_4}
use sisrv_platform.Elf.Image.Word.{IsByteDict, align_down_lem}
use sisrv_platform.Elf.Image.Layout.{image_byte, image_byte-nil, image_byte-hex_lines}

-- The last line covers the highest key.
rounds_cover :
    (top base i : ℕ)
    → base % 4 ≡ 0
    → 4 * rounds_of_4 (align_down base) (align_down (top + 4)) ≤ i
    → top < base + i
rounds_cover top base i aligned h = omega (arith, align_down_lem base, align_down_lem (top + 4))

-- The file holds, at each offset from an aligned base, the byte that the dictionary has at that
-- address, and 0 where it has none.
pub image_byte-write_hex :
    (words : Dict) (base i : ℕ)
    → IsByteDict words
    → base % 4 ≡ 0
    → image_byte (write_hex words base) i ≡ lookup_or words (base + i) 0
unfolding write_hex
image_byte-write_hex [] base i h aligned = image_byte-nil i ∙ (unfold lookup in refl)
image_byte-write_hex (e ∷ words) base i h aligned =
    image_byte-hex_lines (e ∷ words) h n (align_down base) i ∙ covered
  where
    n : ℕ
    n = rounds_of_4 (align_down base) (align_down (max_key (e ∷ words) + 4))

    start : align_down base ≡ base
    start = omega (arith, align_down_lem base)

    covered :
        (if ltb i (4 * n) then lookup_or (e ∷ words) (align_down base + i) 0 else 0)
        ≡ lookup_or (e ∷ words) (base + i) 0
    covered = elim (Bool-cases (ltb i (4 * n))) [
      | inl inside ↦ rw (inside, start)
      | inr outside ↦
          let past : max_key (e ∷ words) < base + i =
            rounds_cover (max_key (e ∷ words)) base i aligned (ground arith) in
          rw (outside, lookup-beyond (e ∷ words) (base + i) past)
    ]
