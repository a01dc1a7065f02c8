-- ===== src/Elf.antt =====
-- verification/riscof/scripts/elf2sisrv.py: a RISC-V ELF file, of either class, is read into a ROM
-- and a RAM image. A file is the list of its bytes; a raised exception is an `ElfError`.
pub mod Image
pub mod Spec
pub mod Memory
pub mod Headers
pub mod Convert
pub mod Accepts
mod Tests
use sisrv_platform.Prelude.{
  ℕ, zero, suc, ◌+◌, ◌*◌, not, ◌||◌, none, some, [], ◌∷◌, Result, ok, err, ◌>>=◌, ◌>>◌, ensure, ltb,
  leb, ◌==◌, if◌then◌else◌, length, take, drop, get_elem?, eq_text, Text, Dict, insert,
}

abbrev pub rom_base : ℕ
rom_base = 0x0000_0000

abbrev pub ram_base : ℕ
ram_base = 0x8000_0000

abbrev pub pt_load : ℕ
pt_load = 1

abbrev pub em_riscv : ℕ
em_riscv = 243

abbrev pub elfclass32 : ℕ
elfclass32 = 1

abbrev pub elfclass64 : ℕ
elfclass64 = 2

-- What stops the conversion: the four `ValueError`s, the `struct.error` of a read past the end of
-- the file, and the `IndexError` of `data[4]`.
pub data ElfError : Type 0 where
  not_an_elf : ElfError
  unsupported_class : ℕ → ElfError
  wrong_machine : ElfError
  exceeds_map : ElfError
  struct_error : ElfError
  index_error : ElfError

-- The number that bytes spell, the lowest first.
abbrev pub from_le : Text → ℕ
from_le [] = 0
from_le (b ∷ bs) = b + 256 * from_le bs

-- struct.unpack_from of one unsigned little-endian field of n bytes
unfoldable pub unpack_from : ℕ → Text → ℕ → Result ElfError ℕ
unpack_from n bytes off =
    if leb (off + n) (length bytes)
    then ok (from_le (take n (drop off bytes)))
    else err struct_error

unfoldable pub read_u16 : Text → ℕ → Result ElfError ℕ
read_u16 = unpack_from 2

unfoldable pub read_u32 : Text → ℕ → Result ElfError ℕ
read_u32 = unpack_from 4

unfoldable pub read_u64 : Text → ℕ → Result ElfError ℕ
read_u64 = unpack_from 8

-- data[off]
unfoldable pub byte_at : Text → ℕ → Result ElfError ℕ
byte_at bytes off = elim (get_elem? bytes off) [ none ↦ err index_error | some b ↦ ok b ]

-- The two dictionaries that the loader fills.
pub record Images : Type 0 where
  pub rom : Dict
  pub ram : Dict

unfoldable pub place_byte : ℕ → ℕ → Images → Images
place_byte addr byte_val im =
    if leb ram_base addr
    then record im { ram = insert im.ram addr byte_val }
    else if leb rom_base addr
    then record im { rom = insert im.rom addr byte_val }
    else im

-- The `enumerate` loop, from the address of the segment's next byte.
unfoldable pub place_bytes : Text → ℕ → Images → Images
place_bytes [] addr im = im
place_bytes (b ∷ bs) addr im = place_bytes bs (addr + 1) (place_byte addr b im)

unfoldable pub load_bytes : Text → ℕ → ℕ → ℕ → Images → Images
load_bytes bytes p_offset p_vaddr p_filesz im =
    place_bytes (take p_filesz (drop p_offset bytes)) p_vaddr im

-- One round of the loop over the program headers, for each class.
unfoldable pub header32 : Text → ℕ → Images → Result ElfError Images
header32 bytes off im = do
  p_type ← read_u32 bytes off
  if not (p_type == pt_load) then ok im else do
    p_offset ← read_u32 bytes (off + 4)
    p_vaddr ← read_u32 bytes (off + 8)
    p_filesz ← read_u32 bytes (off + 16)
    ok (load_bytes bytes p_offset p_vaddr p_filesz im)

unfoldable pub header64 : Text → ℕ → Images → Result ElfError Images
header64 bytes off im = do
  p_type ← read_u32 bytes off
  if not (p_type == pt_load) then ok im else do
    p_offset ← read_u64 bytes (off + 8)
    p_vaddr ← read_u64 bytes (off + 16)
    p_filesz ← read_u64 bytes (off + 32)
    ensure (not (ltb 0xffff_ffff p_vaddr || ltb 0xffff_ffff p_filesz)) exceeds_map
    ok (load_bytes bytes p_offset p_vaddr p_filesz im)

-- `for idx in range(e_phnum)`, with the rounds that are left and the index of the next.
unfoldable pub for_headers :
    (ℕ → Images → Result ElfError Images) → ℕ → ℕ → ℕ → ℕ → Images → Result ElfError Images
for_headers header e_phoff e_phentsize zero idx im = ok im
for_headers header e_phoff e_phentsize (suc left) idx im = do
  im' ← header (e_phoff + idx * e_phentsize) im
  for_headers header e_phoff e_phentsize left (idx + 1) im'

abbrev pub magic : Text
magic = 0x7f ∷ b'E' ∷ b'L' ∷ b'F' ∷ []

abbrev pub no_bytes : Images
no_bytes = record { rom = []; ram = [] }

unfoldable pub load_class32 : Text → Result ElfError Images
load_class32 bytes = do
  e_phoff ← read_u32 bytes 0x1c
  e_phentsize ← read_u16 bytes 0x2a
  e_phnum ← read_u16 bytes 0x2c
  for_headers (header32 bytes) e_phoff e_phentsize e_phnum 0 no_bytes

unfoldable pub load_class64 : Text → Result ElfError Images
load_class64 bytes = do
  e_phoff ← read_u64 bytes 0x20
  e_phentsize ← read_u16 bytes 0x36
  e_phnum ← read_u16 bytes 0x38
  for_headers (header64 bytes) e_phoff e_phentsize e_phnum 0 no_bytes

unfoldable pub load_segments : Text → Result ElfError Images
load_segments bytes = do
  ensure (eq_text (take 4 bytes) magic) not_an_elf
  elf_class ← byte_at bytes 4
  ensure (elf_class == elfclass32 || elf_class == elfclass64) (unsupported_class elf_class)
  machine ← read_u16 bytes 0x12
  ensure (machine == em_riscv) wrong_machine
  if elf_class == elfclass32 then load_class32 bytes else load_class64 bytes
