-- ===== src/Elf/Memory.antt =====
-- What the byte loop leaves in the two images.
use sisrv_platform.Prelude.{
  ℕ, suc, ◌+◌, ◌-◌, ◌<◌, ◌≤◌, ◌≡◌, true, Option, some, [], ◌∷◌, inl, inr, arith, leb, ◌==◌,
  if◌then◌else◌, Bool-cases, leb→le, get_elem?, get_elem?-take, get_elem?-drop, take, drop, Text,
  lookup, lookup-insert, All, All-insert, All-take, All-drop,
}
use sisrv_platform.Elf.{Images, rom_base, ram_base, place_byte, place_bytes, load_bytes}
use sisrv_platform.Elf.Spec.{Segment, byte_of, first_of_two}

-- The byte of an address, in the image that the address belongs to.
abbrev pub found : Images → ℕ → Option ℕ
found im a = lookup (if leb ram_base a then im.ram else im.rom) a

found-place_byte :
    (addr v : ℕ) (im : Images) (a : ℕ)
    → found (place_byte addr v im) a ≡ (if addr == a then some v else found im a)
unfolding place_byte
found-place_byte addr v im a =
    ground (arith, lookup-insert im.ram addr v a, lookup-insert im.rom addr v a)

found-place_bytes :
    (bs : Text) (addr : ℕ) (im : Images) (a : ℕ)
    → found (place_bytes bs addr im) a
      ≡ (if leb addr a then first_of_two (get_elem? bs (a - addr)) (found im a) else found im a)
unfolding place_bytes
found-place_bytes [] addr im a = ground arith
found-place_bytes (b ∷ bs) addr im a =
    let ih = found-place_bytes bs (addr + 1) (place_byte addr b im) a in
    let here = found-place_byte addr b im a in
    elim (Bool-cases (leb addr a)) [
      | inr below ↦ ground (arith, ih, here)
      | inl reached ↦ elim (Bool-cases (addr == a)) [
        | inl same ↦ let first : a - addr ≡ 0 = ground arith in rw first (ground (arith, ih, here))
        | inr later ↦
            let next : a - addr ≡ suc (a - (addr + 1)) = ground arith in
            rw next (ground (arith, ih, here))
      ]
    ]

-- One segment overwrites what it covers and leaves the rest alone.
pub found-load_bytes :
    (bytes : Text) (s : Segment) (im : Images) (a : ℕ)
    → found (load_bytes bytes s.offset s.vaddr s.filesz im) a
      ≡ first_of_two (byte_of bytes s a) (found im a)
unfolding load_bytes
found-load_bytes bytes s im a = ground (
  arith,
  found-place_bytes (take s.filesz (drop s.offset bytes)) s.vaddr im a,
  get_elem?-take (drop s.offset bytes) s.filesz (a - s.vaddr),
  get_elem?-drop bytes s.offset (a - s.vaddr),
)

-- Both images hold bytes, and each holds only addresses of its region.
pub record IsSeparated (im : Images) : Type 0 where
  pub rom_bytes : All (λ e. e.1 < 256) im.rom
  pub ram_bytes : All (λ e. e.1 < 256) im.ram
  pub rom_keys : All (λ e. e.0 < ram_base) im.rom
  pub ram_keys : All (λ e. ram_base ≤ e.0) im.ram

place_byte-IsSeparated :
    (addr v : ℕ) (im : Images) → v < 256 → IsSeparated im → IsSeparated (place_byte addr v im)
unfolding place_byte
place_byte-IsSeparated addr v im small sep =
    let any_address : leb rom_base addr ≡ true = ground arith in
    elim (Bool-cases (leb ram_base addr)) [
      | inl high ↦ rw high (record {
        rom_bytes = sep.rom_bytes;
        ram_bytes = All-insert (λ _ w. w < 256) im.ram addr v sep.ram_bytes small;
        rom_keys = sep.rom_keys;
        ram_keys = All-insert (λ k _. ram_base ≤ k) im.ram addr v sep.ram_keys (leb→le _ _ high);
      })
      | inr low ↦
          rw (low, any_address)
            (record {
              rom_bytes = All-insert (λ _ w. w < 256) im.rom addr v sep.rom_bytes small;
              ram_bytes = sep.ram_bytes;
              rom_keys = All-insert (λ k _. k < ram_base) im.rom addr v sep.rom_keys (ground arith);
              ram_keys = sep.ram_keys;
            })
    ]

place_bytes-IsSeparated :
    (bs : Text) (addr : ℕ) (im : Images)
    → All (λ b. b < 256) bs
    → IsSeparated im
    → IsSeparated (place_bytes bs addr im)
unfolding place_bytes
place_bytes-IsSeparated [] addr im h sep = sep
place_bytes-IsSeparated (b ∷ bs) addr im (small, h) sep =
    place_bytes-IsSeparated bs (addr + 1) (place_byte addr b im) h
      (place_byte-IsSeparated addr b im small sep)

pub load_bytes-IsSeparated :
    (bytes : Text) (p_offset p_vaddr p_filesz : ℕ) (im : Images)
    → All (λ b. b < 256) bytes
    → IsSeparated im
    → IsSeparated (load_bytes bytes p_offset p_vaddr p_filesz im)
unfolding load_bytes
load_bytes-IsSeparated bytes p_offset p_vaddr p_filesz im h =
    place_bytes-IsSeparated (take p_filesz (drop p_offset bytes)) p_vaddr im
      (All-take _ p_filesz (drop p_offset bytes) (All-drop _ p_offset bytes h))
