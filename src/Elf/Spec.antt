-- ===== src/Elf/Spec.antt =====
-- What an ELF file says that memory holds, written without loops over state: its table of loadable
-- segments, and for each address the byte of the last segment that covers it.
use sisrv_platform.Prelude.{
  ℕ, zero, suc, ◌+◌, ◌-◌, ◌*◌, ◌&&◌, Option, none, some, List, [], ◌∷◌, ltb, leb, ◌==◌,
  if◌then◌else◌, get_elem?, get_or, take, drop, Text,
}
use sisrv_platform.Elf.{from_le, pt_load, elfclass32}

pub record Segment : Type 0 where
  pub offset : ℕ
  pub vaddr : ℕ
  pub filesz : ℕ

-- The field of n bytes at an offset.
abbrev pub field_at : ℕ → Text → ℕ → ℕ
field_at n bytes off = from_le (take n (drop off bytes))

abbrev pub segment32 : Text → ℕ → Option Segment
segment32 bytes off =
    if field_at 4 bytes off == pt_load
    then some (record {
      offset = field_at 4 bytes (off + 4);
      vaddr = field_at 4 bytes (off + 8);
      filesz = field_at 4 bytes (off + 16);
    })
    else none

abbrev pub segment64 : Text → ℕ → Option Segment
segment64 bytes off =
    if field_at 4 bytes off == pt_load
    then some (record {
      offset = field_at 8 bytes (off + 8);
      vaddr = field_at 8 bytes (off + 16);
      filesz = field_at 8 bytes (off + 32);
    })
    else none

-- The segments of n consecutive headers, from the one of an index on.
abbrev pub table : (ℕ → Option Segment) → ℕ → ℕ → ℕ → ℕ → List (Option Segment)
table segment_at phoff entsize zero idx = []
table segment_at phoff entsize (suc n) idx =
    segment_at (phoff + idx * entsize) ∷ table segment_at phoff entsize n (idx + 1)

-- The headers that the file's own header points to; `none` is one that is not loaded.
unfoldable pub segments : Text → List (Option Segment)
segments bytes =
    if get_or bytes 4 0 == elfclass32
    then table (segment32 bytes) (field_at 4 bytes 0x1c) (field_at 2 bytes 0x2a)
        (field_at 2 bytes 0x2c) 0
    else table (segment64 bytes) (field_at 8 bytes 0x20) (field_at 2 bytes 0x36)
        (field_at 2 bytes 0x38) 0

-- The byte that a segment puts at an address.
abbrev pub byte_of : Text → Segment → ℕ → Option ℕ
byte_of bytes s a =
    if leb s.vaddr a && ltb (a - s.vaddr) s.filesz
    then get_elem? bytes (s.offset + (a - s.vaddr))
    else none

abbrev pub first_of_two : Option ℕ → Option ℕ → Option ℕ
first_of_two none d = d
first_of_two (some b) d = some b

abbrev pub covered : Text → Option Segment → ℕ → Option ℕ → Option ℕ
covered bytes none a before = before
covered bytes (some s) a before = first_of_two (byte_of bytes s a) before

-- Later segments win.
abbrev pub last_byte : Text → List (Option Segment) → ℕ → Option ℕ → Option ℕ
last_byte bytes [] a before = before
last_byte bytes (s ∷ ss) a before = last_byte bytes ss a (covered bytes s a before)
