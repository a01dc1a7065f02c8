-- ===== src/Elf/Convert.antt =====
-- `main` of verification/riscof/scripts/elf2sisrv.py: the file is loaded, and each image is written
-- against the base of its region.
use sisrv_platform.Prelude.{
  ℕ, ◌+◌, ◌<◌, ◌≤◌, ◌≡◌, ◌∙◌, ap, sym, none, inl, inr, arith, Result, ok, ◌>>=◌, >>=-eq-ok,
  Option-cases, leb, leb→le, le→leb, Bool-cases, true, if◌then◌else◌, All, All-lookup, Text, lookup,
  lookup_or, or_else, subst,
}
use native.Mathlib.Nat.{zero-add}
use sisrv_platform.Elf.{ElfError, Images, rom_base, ram_base, no_bytes, load_segments}
use sisrv_platform.Elf.Spec.{segments, last_byte}
use sisrv_platform.Elf.Memory.{found, IsSeparated}
use sisrv_platform.Elf.Headers.{found-apply_all, apply_all-IsSeparated, load_segments-apply_all}
use sisrv_platform.Elf.Image.{write_hex}
use sisrv_platform.Elf.Image.Layout.{image_byte}
use sisrv_platform.Elf.Image.ReadBack.{image_byte-write_hex}

-- The texts of the two files that are written.
pub record HexFiles : Type 0 where
  pub rom_hex : Text
  pub ram_hex : Text

unfoldable pub convert : Text → Result ElfError HexFiles
convert bytes = do
  im ← load_segments bytes
  ok (record { rom_hex = write_hex im.rom rom_base; ram_hex = write_hex im.ram ram_base })

-- A file that is loaded leaves, at every address, in the image of the address's region, the byte of
-- the last loadable segment that covers the address, and no entry where none does.
pub load_segments-found :
    (bytes : Text) (im : Images)
    → load_segments bytes ≡ ok im
    → (a : ℕ) → found im a ≡ last_byte bytes (segments bytes) a none
load_segments-found bytes im h a =
    ap (λ (m : Images). found m a) (load_segments-apply_all bytes h)
    ∙ found-apply_all bytes (segments bytes) no_bytes a
    ∙ ap (last_byte bytes (segments bytes) a) (unfold lookup in ground arith)

no_bytes-IsSeparated : IsSeparated no_bytes
no_bytes-IsSeparated = omega arith

-- Both images of a loaded file hold bytes; the ROM image has addresses below 0x80000000 only, and
-- the RAM image only addresses from there on.
pub load_segments-IsSeparated :
    (bytes : Text) (im : Images)
    → All (λ b. b < 256) bytes
    → load_segments bytes ≡ ok im
    → IsSeparated im
load_segments-IsSeparated bytes im small h =
    subst IsSeparated (sym (load_segments-apply_all bytes h))
      (apply_all-IsSeparated bytes (segments bytes) no_bytes small no_bytes-IsSeparated)

-- No address of RAM has an entry in the ROM image.
rom-lookup_high : (im : Images) (a : ℕ) → IsSeparated im → ram_base ≤ a → lookup im.rom a ≡ none
rom-lookup_high im a sep high = elim (Option-cases (lookup im.rom a)) [
  | inl absent ↦ absent
  | inr (v, e) ↦ absurd (omega (arith, All-lookup (λ k _. k < ram_base) im.rom a sep.rom_keys e))
]

-- The two regions, in terms of the file.
module _ (bytes : Text) (im : Images) (loaded : load_segments bytes ≡ ok im) (sep : IsSeparated im)
    (i : ℕ) where
  rom-lookup_or :
      lookup_or im.rom i 0
      ≡ (if leb ram_base i then 0 else or_else (last_byte bytes (segments bytes) i none) 0)
  rom-lookup_or = elim (Bool-cases (leb ram_base i)) [
    | inl high ↦ rw (high, rom-lookup_high im i sep (leb→le _ _ high))
    | inr low ↦
        let entry = load_segments-found bytes im loaded i in
        rw low (ap (λ o. or_else o 0) (rw low at entry))
  ]

  ram-lookup_or :
      lookup_or im.ram (ram_base + i) 0
      ≡ or_else (last_byte bytes (segments bytes) (ram_base + i) none) 0
  ram-lookup_or =
      let high : leb ram_base (ram_base + i) ≡ true = le→leb _ _ (omega arith) in
      let entry = load_segments-found bytes im loaded (ram_base + i) in
      ap (λ o. or_else o 0) (rw high at entry)

-- Of a file of bytes that is converted, the simulator reads back at every offset of the ROM file
-- the byte of the last segment that covers the address, or 0 (and 0 past the region), and at every
-- offset of the RAM file that of the address 0x80000000 higher.
pub image_byte-convert :
    (bytes : Text) (files : HexFiles)
    → All (λ b. b < 256) bytes
    → convert bytes ≡ ok files
    → (i : ℕ)
    → (image_byte files.rom_hex i
        ≡ (if leb ram_base i then 0 else or_else (last_byte bytes (segments bytes) i none) 0))
      × (image_byte files.ram_hex i
          ≡ or_else (last_byte bytes (segments bytes) (ram_base + i) none) 0)
unfolding convert
image_byte-convert bytes files small h i =
    let (im, loaded, made) = >>=-eq-ok (load_segments bytes) _ h in
    let sep = load_segments-IsSeparated bytes im small loaded in
    let in_rom : files.rom_hex ≡ write_hex im.rom rom_base = ground arith in
    let in_ram : files.ram_hex ≡ write_hex im.ram ram_base = ground arith in
    (
      rw (in_rom, image_byte-write_hex im.rom rom_base i sep.rom_bytes (omega arith), zero-add)
          (rom-lookup_or bytes im loaded sep i),
      rw (in_ram, image_byte-write_hex im.ram ram_base i sep.ram_bytes (omega arith))
          (ram-lookup_or bytes im loaded sep i),
    )
