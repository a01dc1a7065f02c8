-- ===== src/Elf/Headers.antt =====
-- The loop over the program headers against the table of segments.
use sisrv_platform.Prelude.{
  ℕ, zero, suc, ◌+◌, ◌*◌, ◌<◌, ◌≡◌, refl, ◌∙◌, ap, ◌||◌, Option, none, some, inl, inr, ◌⊎◌, arith,
  List, [], ◌∷◌, Result, ok, err, >>=-eq-ok, ensure, ◌==◌, if◌then◌else◌, Bool-cases, Option-cases,
  get_elem?, get_or, get_or-get_elem?, take, eq_text, Text, All,
}
use sisrv_platform.Elf.{
  Images, ElfError, unpack_from, read_u16, read_u32, read_u64, byte_at, load_bytes, header32,
  header64, for_headers, magic, no_bytes, load_class32, load_class64, load_segments, struct_error,
  not_an_elf, unsupported_class, wrong_machine, em_riscv, elfclass32, elfclass64,
}
use sisrv_platform.Elf.Spec.{
  Segment, field_at, segment32, segment64, table, segments, covered, last_byte,
}
use sisrv_platform.Elf.Memory.{found, found-load_bytes, IsSeparated, load_bytes-IsSeparated}

-- A field that is read is the field of the file.
pub unpack_from-cases :
    (n : ℕ) (bytes : Text) (off : ℕ)
    → (unpack_from n bytes off ≡ ok (field_at n bytes off))
      ⊎ (unpack_from n bytes off ≡ err struct_error)
unfolding unpack_from
unpack_from-cases n bytes off = ground arith

-- One segment, or none, loaded into the images.
abbrev pub applied : Text → Option Segment → Images → Images
applied bytes none im = im
applied bytes (some s) im = load_bytes bytes s.offset s.vaddr s.filesz im

header32-applied :
    (bytes : Text) (off : ℕ) (im im' : Images)
    → header32 bytes off im ≡ ok im'
    → im' ≡ applied bytes (segment32 bytes off) im
unfolding header32 read_u32
header32-applied bytes off im im' h = ground (
  arith,
  unpack_from-cases 4 bytes off,
  unpack_from-cases 4 bytes (off + 4),
  unpack_from-cases 4 bytes (off + 8),
  unpack_from-cases 4 bytes (off + 16),
)

header64-applied :
    (bytes : Text) (off : ℕ) (im im' : Images)
    → header64 bytes off im ≡ ok im'
    → im' ≡ applied bytes (segment64 bytes off) im
unfolding header64 read_u32 read_u64
header64-applied bytes off im im' h = ground (
  arith,
  unpack_from-cases 4 bytes off,
  unpack_from-cases 8 bytes (off + 8),
  unpack_from-cases 8 bytes (off + 16),
  unpack_from-cases 8 bytes (off + 32),
)

found-applied :
    (bytes : Text) (s : Option Segment) (im : Images) (a : ℕ)
    → found (applied bytes s im) a ≡ covered bytes s a (found im a)
found-applied bytes none im a = refl
found-applied bytes (some s) im a = found-load_bytes bytes s im a

applied-IsSeparated :
    (bytes : Text) (s : Option Segment) (im : Images)
    → All (λ b. b < 256) bytes
    → IsSeparated im
    → IsSeparated (applied bytes s im)
applied-IsSeparated bytes none im small sep = sep
applied-IsSeparated bytes (some s) im small sep =
    load_bytes-IsSeparated bytes s.offset s.vaddr s.filesz im small sep

-- The images that a list of segments leaves.
abbrev pub apply_all : Text → List (Option Segment) → Images → Images
apply_all bytes [] im = im
apply_all bytes (s ∷ ss) im = apply_all bytes ss (applied bytes s im)

pub found-apply_all :
    (bytes : Text) (ss : List (Option Segment)) (im : Images) (a : ℕ)
    → found (apply_all bytes ss im) a ≡ last_byte bytes ss a (found im a)
found-apply_all bytes [] im a = refl
found-apply_all bytes (s ∷ ss) im a =
    found-apply_all bytes ss (applied bytes s im) a
    ∙ ap (last_byte bytes ss a) (found-applied bytes s im a)

pub apply_all-IsSeparated :
    (bytes : Text) (ss : List (Option Segment)) (im : Images)
    → All (λ b. b < 256) bytes
    → IsSeparated im
    → IsSeparated (apply_all bytes ss im)
apply_all-IsSeparated bytes [] im small sep = sep
apply_all-IsSeparated bytes (s ∷ ss) im small sep =
    apply_all-IsSeparated bytes ss (applied bytes s im) small
      (applied-IsSeparated bytes s im small sep)

module _ (bytes : Text) (header : ℕ → Images → Result ElfError Images)
    (segment_at : ℕ → Option Segment)
    (one_round : (off : ℕ) (im im' : Images)
      → header off im ≡ ok im'
      → im' ≡ applied bytes (segment_at off) im)
    (phoff entsize : ℕ) where
  for_headers-apply_all :
      (n idx : ℕ) (im : Images) {im' : Images}
      → for_headers header phoff entsize n idx im ≡ ok im'
      → im' ≡ apply_all bytes (table segment_at phoff entsize n idx) im
  unfolding for_headers
  for_headers-apply_all zero idx im h = ground arith
  for_headers-apply_all (suc n) idx im h =
      let (mid, first, rest) = >>=-eq-ok (header (phoff + idx * entsize) im) _ h in
      for_headers-apply_all n (idx + 1) mid rest
      ∙ ap (apply_all bytes (table segment_at phoff entsize n (idx + 1)))
          (one_round (phoff + idx * entsize) im mid first)

load_class32-apply_all :
    (bytes : Text) {im : Images}
    → load_class32 bytes ≡ ok im
    → im
      ≡ apply_all bytes
          (table
            (segment32 bytes)
            (field_at 4 bytes 0x1c)
            (field_at 2 bytes 0x2a)
            (field_at 2 bytes 0x2c)
            0)
          no_bytes
unfolding load_class32 read_u32 read_u16
load_class32-apply_all bytes {im} h =
    for_headers-apply_all bytes (header32 bytes) (segment32 bytes) (header32-applied bytes)
      (field_at 4 bytes 0x1c) (field_at 2 bytes 0x2a) (field_at 2 bytes 0x2c) 0 no_bytes
      (ground (
        arith,
        unpack_from-cases 4 bytes 0x1c,
        unpack_from-cases 2 bytes 0x2a,
        unpack_from-cases 2 bytes 0x2c,
      ))

load_class64-apply_all :
    (bytes : Text) {im : Images}
    → load_class64 bytes ≡ ok im
    → im
      ≡ apply_all bytes
          (table
            (segment64 bytes)
            (field_at 8 bytes 0x20)
            (field_at 2 bytes 0x36)
            (field_at 2 bytes 0x38)
            0)
          no_bytes
unfolding load_class64 read_u64 read_u16
load_class64-apply_all bytes {im} h =
    for_headers-apply_all bytes (header64 bytes) (segment64 bytes) (header64-applied bytes)
      (field_at 8 bytes 0x20) (field_at 2 bytes 0x36) (field_at 2 bytes 0x38) 0 no_bytes
      (ground (
        arith,
        unpack_from-cases 8 bytes 0x20,
        unpack_from-cases 2 bytes 0x36,
        unpack_from-cases 2 bytes 0x38,
      ))

byte_at-eq-ok : (bytes : Text) (off : ℕ) {b : ℕ} → byte_at bytes off ≡ ok b → get_or bytes off 0 ≡ b
unfolding byte_at
byte_at-eq-ok bytes off h = elim (Option-cases (get_elem? bytes off)) [
  | inl absent ↦ absurd (ground arith)
  | inr (v, e) ↦ get_or-get_elem? bytes off 0 e ∙ ground arith
]

-- A file that is loaded has passed the checks, and its class has chosen the loader.
pub load_segments-by_class :
    (bytes : Text) {im : Images}
    → load_segments bytes ≡ ok im
    → (if get_or bytes 4 0 == elfclass32 then load_class32 bytes else load_class64 bytes) ≡ ok im
unfolding load_segments
load_segments-by_class bytes {im} h =
    let (_, _, h1) = >>=-eq-ok (ensure (eq_text (take 4 bytes) magic) not_an_elf) _ h in
    let (c, is_c, h2) = >>=-eq-ok (byte_at bytes 4) _ h1 in
    let (_, _, h3) =
      >>=-eq-ok (ensure (c == elfclass32 || c == elfclass64) (unsupported_class c)) _ h2 in
    let (m, _, h4) = >>=-eq-ok (read_u16 bytes 0x12) _ h3 in
    let (_, _, h5) = >>=-eq-ok (ensure (m == em_riscv) wrong_machine) _ h4 in
    rw (byte_at-eq-ok bytes 4 is_c) h5

pub load_segments-apply_all :
    (bytes : Text) {im : Images}
    → load_segments bytes ≡ ok im
    → im ≡ apply_all bytes (segments bytes) no_bytes
unfolding segments
load_segments-apply_all bytes {im} h =
    let by_class = load_segments-by_class bytes h in
    elim (Bool-cases (get_or bytes 4 0 == elfclass32)) [
      | inl is32 ↦ rw is32 (load_class32-apply_all bytes (rw is32 at by_class))
      | inr is64 ↦ rw is64 (load_class64-apply_all bytes (rw is64 at by_class))
    ]
