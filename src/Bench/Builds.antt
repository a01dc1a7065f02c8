-- ===== src/Bench/Builds.antt =====
-- The commands that scripts/run_benchmarks.py runs to build a benchmark, as lists of arguments, and
-- the hex file of a flat binary. The directory of the repository is a parameter.
use sisrv_platform.Prelude.{
  format_dec, ℕ, ◌+◌, ◌*◌, List, [], ◌∷◌, ◌++◌, map, Text, codes, format_08x,
}
use sisrv_platform.Bench.{Seeds}

unfoldable pub common_flags : Text → List Text
common_flags isa =
    (codes "-march=" ++ isa)
    ∷ codes "-mabi=ilp32"
    ∷ codes "-O2"
    ∷ codes "-nostdlib"
    ∷ codes "-nostartfiles"
    ∷ codes "-ffreestanding"
    ∷ codes "-static"
    ∷ codes "-fno-pic"
    ∷ codes "-fno-pie"
    ∷ codes "-no-pie"
    ∷ codes "-fno-builtin"
    ∷ codes "-Wl,--build-id=none"
    ∷ []

-- int.from_bytes(data[i:i + 4], 'little') of each group of four; the last group may be shorter.
unfoldable pub hex_words : List ℕ → List Text
hex_words [] = []
hex_words (a ∷ []) = format_08x a ∷ []
hex_words (a ∷ b ∷ []) = format_08x (a + 256 * b) ∷ []
hex_words (a ∷ b ∷ c ∷ []) = format_08x (a + 256 * (b + 256 * c)) ∷ []
hex_words (a ∷ b ∷ c ∷ d ∷ bytes) =
    format_08x (a + 256 * (b + 256 * (c + 256 * d))) ∷ hex_words bytes

-- "\n".join(lines)
unfoldable pub join : List Text → Text
join [] = []
join (line ∷ []) = line
join (line ∷ next ∷ lines) = line ++ 10 ∷ join (next ∷ lines)

-- The hex file of the bytes that objcopy left.
unfoldable pub objcopy_to_hex : List ℕ → Text
objcopy_to_hex bytes = join (hex_words bytes) ++ 10 ∷ []

unfoldable pub objcopy_command : (objcopy elf bin : Text) → List Text
objcopy_command objcopy elf bin = objcopy ∷ codes "-O" ∷ codes "binary" ∷ elf ∷ bin ∷ []

abbrev pub old_c_flags : List Text
old_c_flags =
    codes "-std=gnu89"
    ∷ codes "-Wno-implicit-int"
    ∷ codes "-Wno-implicit-function-declaration"
    ∷ codes "-Wno-return-type"
    ∷ codes "-Wno-builtin-declaration-mismatch"
    ∷ codes "-Dmain=dhry_upstream_main"
    ∷ codes "-DTIME"
    ∷ []

-- The sources with their own flags, in the order of their objects.
unfoldable pub dhrystone_parts : ℕ → List (Text × Text × List Text)
dhrystone_parts iterations =
    (codes "sw/bsp/crt0.S", codes "/crt0.o", [])
    ∷ (codes "sw/bench/common/sisrv_bench.c", codes "/sisrv_bench.o", codes "-std=gnu99" ∷ [])
    ∷ (
      codes "sw/bench/dhrystone/dhry_sisrv.c",
      codes "/dhry_sisrv.o",
      codes "-std=gnu99"
          ∷ (codes "-DDHRY_ITERATIONS=" ++ format_dec iterations)
          ∷ codes "-DTIME"
          ∷ [],
    )
    ∷ (codes "third_party/dhrystone/dhry_1.c", codes "/dhry_1.o", old_c_flags)
    ∷ (codes "third_party/dhrystone/dhry_2.c", codes "/dhry_2.o", old_c_flags)
    ∷ []

module _ (root : Text) where
  -- str(ROOT / path)
  abbrev pub under_root : Text → Text
  under_root path = root ++ b'/' ∷ path

  unfoldable pub coremark_sources : List Text
  coremark_sources = map under_root (
      codes "sw/bsp/crt0.S"
      ∷ codes "sw/bench/common/sisrv_bench.c"
      ∷ codes "sw/bench/coremark/core_portme.c"
      ∷ codes "third_party/coremark/core_list_join.c"
      ∷ codes "third_party/coremark/core_main.c"
      ∷ codes "third_party/coremark/core_matrix.c"
      ∷ codes "third_party/coremark/core_state.c"
      ∷ codes "third_party/coremark/core_util.c"
      ∷ [])

  abbrev pub coremark_dir : (isa variant : Text) → Text
  coremark_dir isa variant = under_root (codes "build/bench/coremark/" ++ (isa ++ b'/' ∷ variant))

  unfoldable pub build_coremark :
      (gcc objcopy isa variant : Text) (iterations : ℕ)
      → Seeds
      → (ticks_per_sec : ℕ) → List (List Text)
  build_coremark gcc objcopy isa variant iterations seeds ticks_per_sec =
      (gcc
        ∷ (common_flags isa
            ++ (codes "-I"
                ∷ under_root (codes "sw/bench/common")
                ∷ codes "-I"
                ∷ under_root (codes "sw/bench/coremark")
                ∷ codes "-I"
                ∷ under_root (codes "third_party/coremark")
                ∷ codes "-DTOTAL_DATA_SIZE=2000"
                ∷ (codes "-DCOREMARK_ITERATIONS=" ++ format_dec iterations)
                ∷ (codes "-DCOREMARK_SEED1=" ++ format_dec seeds.seed1)
                ∷ (codes "-DCOREMARK_SEED2=" ++ format_dec seeds.seed2)
                ∷ (codes "-DCOREMARK_SEED3=" ++ format_dec seeds.seed3)
                ∷ (codes "-DCOREMARK_TICKS_PER_SEC=" ++ format_dec ticks_per_sec)
                ∷ (codes "-DCOMPILER_FLAGS=\"" ++ (isa ++ codes " -mabi=ilp32 -O2\""))
                ∷ codes "-T"
                ∷ under_root (codes "sw/bsp/link.ld")
                ∷ codes "-o"
                ∷ (coremark_dir isa variant ++ codes "/coremark.elf")
                ∷ (coremark_sources ++ codes "-lgcc" ∷ []))))
      ∷ objcopy_command objcopy (coremark_dir isa variant ++ codes "/coremark.elf")
          (coremark_dir isa variant ++ codes "/coremark.bin")
      ∷ []

  unfoldable pub compile_obj : (gcc isa source obj : Text) → List Text → List Text
  compile_obj gcc isa source obj extra =
      gcc
      ∷ (common_flags isa
          ++ (codes "-I"
              ∷ under_root (codes "sw/bench/common")
              ∷ codes "-I"
              ∷ under_root (codes "sw/bench/include")
              ∷ codes "-I"
              ∷ under_root (codes "third_party/dhrystone")
              ∷ (extra ++ (codes "-c" ∷ source ∷ codes "-o" ∷ obj ∷ []))))

  abbrev pub dhrystone_dir : Text → ℕ → Text
  dhrystone_dir isa iterations =
      under_root
        (codes "build/bench/dhrystone/" ++ (isa ++ (codes "/iter-" ++ format_dec iterations)))

  unfoldable pub build_dhrystone : (gcc objcopy isa : Text) → ℕ → List (List Text)
  build_dhrystone gcc objcopy isa iterations =
      map
        (λ part.
          compile_obj gcc isa (under_root part.0) (dhrystone_dir isa iterations ++ part.1) part.2)
        (dhrystone_parts iterations)
      ++ ((gcc
            ∷ (common_flags isa
                ++ (codes "-T"
                    ∷ under_root (codes "sw/bsp/link.ld")
                    ∷ codes "-o"
                    ∷ (dhrystone_dir isa iterations ++ codes "/dhrystone.elf")
                    ∷ (map (λ part. dhrystone_dir isa iterations ++ part.1)
                          (dhrystone_parts iterations)
                        ++ codes "-lgcc" ∷ []))))
          ∷ objcopy_command objcopy (dhrystone_dir isa iterations ++ codes "/dhrystone.elf")
              (dhrystone_dir isa iterations ++ codes "/dhrystone.bin")
          ∷ [])
