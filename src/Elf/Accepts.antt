-- ===== src/Elf/Accepts.antt =====
-- Which ELF files are accepted: a 32-bit file whose headers lie inside it always is, and a 64-bit
-- file never with a segment beyond the 32-bit map.
use sisrv_platform.Prelude.{
  ℕ, zero, suc, ◌+◌, ◌*◌, ◌<◌, ◌≤◌, ◌≡◌, refl, true, Option, none, some, arith, ok, >>=-eq-ok,
  length, get_elem?, get_or, get_or-get_elem?, take, ◌^◌, eq_text, Text, All,
}
use sisrv_platform.Elf.{
  Images, unpack_from, read_u16, read_u32, read_u64, byte_at, header32, header64, for_headers,
  magic, no_bytes, load_class32, load_class64, load_segments, elfclass32, elfclass64, em_riscv,
}
use sisrv_platform.Elf.Spec.{Segment, field_at, segment32, segment64, table, segments}
use sisrv_platform.Elf.Headers.{unpack_from-cases, load_segments-by_class, applied}

unpack_from-inside :
    (n : ℕ) (bytes : Text) (off : ℕ)
    → off + n ≤ length bytes
    → unpack_from n bytes off ≡ ok (field_at n bytes off)
unfolding unpack_from
unpack_from-inside n bytes off h = ground arith

header32-inside :
    (bytes : Text) (off : ℕ) (im : Images)
    → off + 20 ≤ length bytes
    → header32 bytes off im ≡ ok (applied bytes (segment32 bytes off) im)
unfolding header32 read_u32
header32-inside bytes off im h = ground (
  arith,
  unpack_from-inside 4 bytes off (omega arith),
  unpack_from-inside 4 bytes (off + 4) (omega arith),
  unpack_from-inside 4 bytes (off + 8) (omega arith),
  unpack_from-inside 4 bytes (off + 16) (omega arith),
)

-- Every header of the table lies inside the file.
abbrev pub HeadersInside : Text → ℕ → ℕ → ℕ → ℕ → Type 0
HeadersInside bytes phoff entsize zero idx = Unit {0}
HeadersInside bytes phoff entsize (suc n) idx =
    (phoff + idx * entsize + 20 ≤ length bytes) × HeadersInside bytes phoff entsize n (idx + 1)

for_headers-inside :
    (bytes : Text) (phoff entsize n idx : ℕ) (im : Images)
    → HeadersInside bytes phoff entsize n idx
    → (im' : Images) × (for_headers (header32 bytes) phoff entsize n idx im ≡ ok im')
unfolding for_headers
for_headers-inside bytes phoff entsize zero idx im h = (im, refl)
for_headers-inside bytes phoff entsize (suc n) idx im (first, rest) =
    rw (header32-inside bytes (phoff + idx * entsize) im first)
      (for_headers-inside bytes phoff entsize n (idx + 1) _ rest)

byte_at-inside :
    (bytes : Text) (off : ℕ) {b : ℕ} → get_elem? bytes off ≡ some b → byte_at bytes off ≡ ok b
unfolding byte_at
byte_at-inside bytes off h = ground arith

-- A 32-bit RISC-V ELF file with the magic number, whose file header and program headers lie inside
-- it, is loaded.
pub load_segments-accepts :
    (bytes : Text)
    → eq_text (take 4 bytes) magic ≡ true
    → get_elem? bytes 4 ≡ some elfclass32
    → field_at 2 bytes 0x12 ≡ em_riscv
    → 0x2e ≤ length bytes
    → HeadersInside bytes (field_at 4 bytes 0x1c) (field_at 2 bytes 0x2a) (field_at 2 bytes 0x2c) 0
    → (im : Images) × (load_segments bytes ≡ ok im)
unfolding load_segments load_class32 read_u16 read_u32
load_segments-accepts bytes starts class machine long inside =
    rw
      (
        starts,
        byte_at-inside bytes 4 class,
        unpack_from-inside 2 bytes 0x12 (omega arith),
        machine,
        unpack_from-inside 4 bytes 0x1c (omega arith),
        unpack_from-inside 2 bytes 0x2a (omega arith),
        unpack_from-inside 2 bytes 0x2c (omega arith),
      )
      (for_headers-inside bytes _ _ _ 0 no_bytes inside)

-- A segment that fits the 32-bit map.
abbrev pub InMap : Option Segment → Type 0
InMap none = Unit {0}
InMap (some s) = (s.vaddr < 2 ^ 32) × (s.filesz < 2 ^ 32)

header64-InMap :
    (bytes : Text) (off : ℕ) (im im' : Images)
    → header64 bytes off im ≡ ok im'
    → InMap (segment64 bytes off)
unfolding header64 read_u32 read_u64
header64-InMap bytes off im im' h = ground (
  arith,
  unpack_from-cases 4 bytes off,
  unpack_from-cases 8 bytes (off + 8),
  unpack_from-cases 8 bytes (off + 16),
  unpack_from-cases 8 bytes (off + 32),
)

for_headers-InMap :
    (bytes : Text) (phoff entsize n idx : ℕ) (im im' : Images)
    → for_headers (header64 bytes) phoff entsize n idx im ≡ ok im'
    → All InMap (table (segment64 bytes) phoff entsize n idx)
unfolding for_headers
for_headers-InMap bytes phoff entsize zero idx im im' h = tt
for_headers-InMap bytes phoff entsize (suc n) idx im im' h =
    let (mid, first, rest) = >>=-eq-ok (header64 bytes (phoff + idx * entsize) im) _ h in
    (
      header64-InMap bytes (phoff + idx * entsize) im mid first,
      for_headers-InMap bytes phoff entsize n (idx + 1) mid im' rest,
    )

load_class64-InMap :
    (bytes : Text) (im : Images)
    → load_class64 bytes ≡ ok im
    → All InMap (
        table
          (segment64 bytes)
          (field_at 8 bytes 0x20)
          (field_at 2 bytes 0x36)
          (field_at 2 bytes 0x38)
          0)
unfolding load_class64 read_u64 read_u16
load_class64-InMap bytes im h =
    for_headers-InMap bytes (field_at 8 bytes 0x20) (field_at 2 bytes 0x36) (field_at 2 bytes 0x38)
      0 no_bytes im
      (ground (
        arith,
        unpack_from-cases 8 bytes 0x20,
        unpack_from-cases 2 bytes 0x36,
        unpack_from-cases 2 bytes 0x38,
      ))

-- Of a 64-bit file that is loaded, every loadable segment starts below 2 ^ 32 and is shorter than
-- that.
pub load_segments-InMap :
    (bytes : Text) (im : Images)
    → get_elem? bytes 4 ≡ some elfclass64
    → load_segments bytes ≡ ok im
    → All InMap (segments bytes)
unfolding segments
load_segments-InMap bytes im class h =
    let is64 : get_or bytes 4 0 ≡ elfclass64 = get_or-get_elem? bytes 4 0 class in
    rw is64 (load_class64-InMap bytes im (rw is64 at (load_segments-by_class bytes h)))
