-- ===== src/Elf/Tests.antt =====
-- Two small ELF files, what the conversion makes of them, and the theorems at these files.
use sisrv_platform.Prelude.{
  ◌+◌, ◌<◌, ◌≡◌, refl, none, arith, [], ◌∷◌, ok, err, Text, All, codes, insert, lookup, max_key,
  format_08x, low_digits, high_digits, or_else, if◌then◌else◌, leb, take,
}
use sisrv_platform.Elf.{
  Images, unpack_from, read_u16, read_u32, read_u64, byte_at, place_byte, place_bytes, load_bytes,
  header32, header64, for_headers, load_class32, load_class64, load_segments, not_an_elf,
  struct_error, ram_base,
}
use sisrv_platform.Elf.Image.{align_down, word_at, hex_lines, join_lines, write_hex}
use sisrv_platform.Elf.Image.Layout.{image_byte}
use sisrv_platform.Elf.Memory.{found, IsSeparated}
use sisrv_platform.Elf.Spec.{segments, last_byte}
use sisrv_platform.Elf.Accepts.{load_segments-accepts, load_segments-InMap, InMap}
use sisrv_platform.Elf.Convert.{
  HexFiles, convert, load_segments-found, load_segments-IsSeparated, image_byte-convert,
}

-- A 32-bit file: five bytes at 0, a header that is not loaded, three bytes at 0x80000002.
abbrev sample32 : Text
sample32 =
    127 ∷ 69 ∷ 76 ∷ 70 ∷ 1 ∷ 0 ∷ 0 ∷ 0 ∷ 0 ∷ 0 ∷ 0 ∷ 0 ∷ 0 ∷ 0 ∷ 0 ∷ 0 ∷ 0 ∷ 0 ∷ 243 ∷ 0 ∷ 0 ∷ 0 ∷ 0
    ∷ 0 ∷ 0 ∷ 0 ∷ 0 ∷ 0 ∷ 52 ∷ 0 ∷ 0 ∷ 0 ∷ 0 ∷ 0 ∷ 0 ∷ 0 ∷ 0 ∷ 0 ∷ 0 ∷ 0 ∷ 0 ∷ 0 ∷ 20 ∷ 0 ∷ 3 ∷ 0
    ∷ 0 ∷ 0 ∷ 0 ∷ 0 ∷ 0 ∷ 0 ∷ 1 ∷ 0 ∷ 0 ∷ 0 ∷ 112 ∷ 0 ∷ 0 ∷ 0 ∷ 0 ∷ 0 ∷ 0 ∷ 0 ∷ 0 ∷ 0 ∷ 0 ∷ 0 ∷ 5
    ∷ 0 ∷ 0 ∷ 0 ∷ 6 ∷ 0 ∷ 0 ∷ 0 ∷ 117 ∷ 0 ∷ 0 ∷ 0 ∷ 0 ∷ 0 ∷ 0 ∷ 0 ∷ 0 ∷ 0 ∷ 0 ∷ 0 ∷ 0 ∷ 0 ∷ 0 ∷ 0
    ∷ 1 ∷ 0 ∷ 0 ∷ 0 ∷ 117 ∷ 0 ∷ 0 ∷ 0 ∷ 2 ∷ 0 ∷ 0 ∷ 128 ∷ 0 ∷ 0 ∷ 0 ∷ 0 ∷ 3 ∷ 0 ∷ 0 ∷ 0 ∷ 19 ∷ 0 ∷ 0
    ∷ 0 ∷ 111 ∷ 7 ∷ 8 ∷ 9 ∷ []

-- A 64-bit file: two bytes at 0x2000.
abbrev sample64 : Text
sample64 =
    127 ∷ 69 ∷ 76 ∷ 70 ∷ 2 ∷ 0 ∷ 0 ∷ 0 ∷ 0 ∷ 0 ∷ 0 ∷ 0 ∷ 0 ∷ 0 ∷ 0 ∷ 0 ∷ 0 ∷ 0 ∷ 243 ∷ 0 ∷ 0 ∷ 0 ∷ 0
    ∷ 0 ∷ 0 ∷ 0 ∷ 0 ∷ 0 ∷ 0 ∷ 0 ∷ 0 ∷ 0 ∷ 64 ∷ 0 ∷ 0 ∷ 0 ∷ 0 ∷ 0 ∷ 0 ∷ 0 ∷ 0 ∷ 0 ∷ 0 ∷ 0 ∷ 0 ∷ 0 ∷ 0
    ∷ 0 ∷ 0 ∷ 0 ∷ 0 ∷ 0 ∷ 0 ∷ 0 ∷ 40 ∷ 0 ∷ 1 ∷ 0 ∷ 0 ∷ 0 ∷ 0 ∷ 0 ∷ 0 ∷ 0 ∷ 1 ∷ 0 ∷ 0 ∷ 0 ∷ 0 ∷ 0 ∷ 0
    ∷ 0 ∷ 104 ∷ 0 ∷ 0 ∷ 0 ∷ 0 ∷ 0 ∷ 0 ∷ 0 ∷ 0 ∷ 32 ∷ 0 ∷ 0 ∷ 0 ∷ 0 ∷ 0 ∷ 0 ∷ 0 ∷ 0 ∷ 0 ∷ 0 ∷ 0 ∷ 0
    ∷ 0 ∷ 0 ∷ 2 ∷ 0 ∷ 0 ∷ 0 ∷ 0 ∷ 0 ∷ 0 ∷ 0 ∷ 1 ∷ 2 ∷ []

program : Unit {0}
unfolding unpack_from read_u16 read_u32 read_u64 byte_at insert place_byte place_bytes load_bytes
    header32 header64 for_headers load_class32 load_class64 load_segments max_key lookup align_down
    word_at low_digits high_digits format_08x hex_lines join_lines write_hex convert segments
program = tt

abbrev images32 : Images
images32 = record {
  rom = (0, 0x13) ∷ (1, 0) ∷ (2, 0) ∷ (3, 0) ∷ (4, 0x6f) ∷ [];
  ram = (0x8000_0002, 7) ∷ (0x8000_0003, 8) ∷ (0x8000_0004, 9) ∷ [];
}

abbrev files32 : HexFiles
files32 = record { rom_hex = codes "00000013\n0000006f\n"; ram_hex = codes "08070000\n00000009\n" }

load_segments-sample32 : load_segments sample32 ≡ ok images32
unfolding program
load_segments-sample32 = refl

convert-sample32 : convert sample32 ≡ ok files32
unfolding program
convert-sample32 = refl

load_segments-sample64 :
    load_segments sample64 ≡ ok (record { rom = (0x2000, 1) ∷ (0x2001, 2) ∷ []; ram = [] })
unfolding program
load_segments-sample64 = refl

-- A file that is cut off inside its header, and one that is no ELF file.
convert_truncated : convert (take 40 sample32) ≡ err struct_error
unfolding program
convert_truncated = refl

convert_text : convert (codes "#!/bin/sh") ≡ err not_an_elf
unfolding program
convert_text = refl

sample32-bytes : All (λ b. b < 256) sample32
sample32-bytes = omega arith

load_segments-found_example :
    found images32 0x8000_0003 ≡ last_byte sample32 (segments sample32) 0x8000_0003 none
load_segments-found_example =
    load_segments-found sample32 images32 load_segments-sample32 0x8000_0003

load_segments-IsSeparated_example : IsSeparated images32
load_segments-IsSeparated_example =
    load_segments-IsSeparated sample32 images32 sample32-bytes load_segments-sample32

image_byte-convert_example :
    (image_byte files32.rom_hex 4
      ≡ (if leb ram_base 4 then 0 else or_else (last_byte sample32 (segments sample32) 4 none) 0))
    × (image_byte files32.ram_hex 4
        ≡ or_else (last_byte sample32 (segments sample32) (ram_base + 4) none) 0)
image_byte-convert_example = image_byte-convert sample32 files32 sample32-bytes convert-sample32 4

load_segments-accepts_example : (im : Images) × (load_segments sample32 ≡ ok im)
load_segments-accepts_example =
    load_segments-accepts sample32 refl refl refl (omega arith) (omega arith)

load_segments-InMap_example : All InMap (segments sample64)
load_segments-InMap_example =
    load_segments-InMap sample64 (record { rom = (0x2000, 1) ∷ (0x2001, 2) ∷ []; ram = [] }) refl
      load_segments-sample64
