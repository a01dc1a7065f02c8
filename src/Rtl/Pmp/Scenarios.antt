-- ===== src/Rtl/Pmp/Scenarios.antt =====
-- tb/cocotb/test_pmp.py: its tests, on the repository's matcher. The packed registers are read as the
-- module's ports have them, entry 0 in the lowest bits.
use sisrv_platform.Prelude.{
  ℕ, zero, suc, ◌/◌, ◌%◌, ◌^◌, ◌≡◌, refl, Bool, true, false, ◌&&◌, List, [], ◌∷◌, bit_and,
}
use sisrv_platform.Isa.Pmp.{PmpState, set_entry, set_harness_entry0, clear_entries, all_ones}
use sisrv_platform.Rtl.Pmp.{PmpEntry, Access, decides, allow}

abbrev priv_m : ℕ
priv_m = 0b11

abbrev priv_u : ℕ
priv_u = 0b00

-- `n` entries, from the lowest.
unfoldable pub entries_of : ℕ → ℕ → ℕ → List PmpEntry
entries_of zero cfgs addrs = []
entries_of (suc n) cfgs addrs =
    record { cfg = cfgs % 2 ^ 8; addr = addrs % 2 ^ 32 }
    ∷ entries_of n (cfgs / 2 ^ 8) (addrs / 2 ^ 32)

-- check_access, as whether its assertion holds.
unfoldable pub check_access : PmpState → ℕ → ℕ → Bool → Bool → Bool → Bool → Bool
unfolding entries_of
check_access st addr priv req_r req_w req_x expect_allow =
    let access : Access = record {
      byte_addr = bit_and addr all_ones;
      priv = priv;
      req_r = req_r;
      req_w = req_w;
      req_x = req_x;
    } in
    elim (allow (entries_of 8 st.pmpcfg st.pmpaddr) access) [
      | true ↦ expect_allow
      | false ↦ elim expect_allow [ true ↦ false | false ↦ true ]
    ]

unfoldable pub napot_decode_sizes : PmpState → Bool
napot_decode_sizes st =
    let harness = set_entry 0 0x1F 0x1FFF (set_harness_entry0 (clear_entries st)) in
    let bytes8 = set_entry 1 0x1B 0x2000_0000 harness in
    let bytes16 = set_entry 1 0x1B 0x2000_0001 bytes8 in
    let bytes4k = set_entry 1 0x1F 0x2000_01FF (set_entry 0 0x1F 0x1FFF (clear_entries bytes16)) in
    let everything = set_entry 0 0x1F 0xFFFF_FFFF (clear_entries bytes4k) in
    check_access bytes8 0x8000_0000 priv_u true true false true
    && check_access bytes8 0x8000_0004 priv_u true false false true
    && check_access bytes8 0x8000_0008 priv_u true false false false
    && check_access bytes16 0x8000_0008 priv_u true false false true
    && check_access bytes16 0x8000_0010 priv_u true false false false
    && check_access bytes4k 0x8000_0FFC priv_u false false true true
    && check_access bytes4k 0x8000_1000 priv_u false false true false
    && check_access everything 0x0000_0000 priv_u true true true true
    && check_access everything 0xDEAD_BEEF priv_u true true true true

unfoldable pub tor_boundaries : PmpState → Bool
tor_boundaries st =
    let tor = set_entry 1 0x0B 0x2000_0400 (set_entry 0 0 0x2000_0000 (clear_entries st)) in
    check_access tor 0x8000_0000 priv_u true false false true
    && check_access tor 0x8000_0FFC priv_u true false false true
    && check_access tor 0x8000_1000 priv_u true false false false
    && check_access tor 0x7FFF_FFFF priv_u true false false false

unfoldable pub na4_exact_word : PmpState → Bool
na4_exact_word st =
    let word = set_entry 1 0x11 0x2000_0000 (set_harness_entry0 (clear_entries st)) in
    check_access word 0x8000_0000 priv_u true false false true
    && check_access word 0x8000_0004 priv_u true false false false

unfoldable pub lowest_index_priority : PmpState → Bool
lowest_index_priority st =
    let two =
      set_entry 2 0x1B 0x2000_7FFF
        (set_entry 1 0x19 0x2000_7FFF (set_harness_entry0 (clear_entries st))) in
    check_access two 0x8000_0000 priv_u false true false false
    && check_access two 0x8000_0000 priv_m false true false true

unfoldable pub no_match_defaults : PmpState → Bool
no_match_defaults st =
    check_access (clear_entries st) 0x8000_0000 priv_m true true true true
    && check_access (clear_entries st) 0x8000_0000 priv_u true true true false

unfoldable pub locked_enforcement_in_m : PmpState → Bool
locked_enforcement_in_m st =
    let locked = set_entry 1 0x99 0x2000_7FFF (set_harness_entry0 (clear_entries st)) in
    check_access locked 0x8000_0000 priv_m false true false false
    && check_access locked 0x8000_0000 priv_m true false false true

unfoldable pub perm_combinations : PmpState → Bool
perm_combinations st =
    let rwx = set_entry 1 0x1F 0x2000_7FFF (set_harness_entry0 (clear_entries st)) in
    let rx = set_entry 1 0x1D 0x2000_7FFF (set_harness_entry0 (clear_entries rwx)) in
    check_access rwx 0x8000_0000 priv_u true false false true
    && check_access rwx 0x8000_0000 priv_u false true false true
    && check_access rwx 0x8000_0000 priv_u false false true true
    && check_access rwx 0x8000_0000 priv_u true true false true
    && check_access rwx 0x8000_0000 priv_u true true true true
    && check_access rx 0x8000_0000 priv_u true false false true
    && check_access rx 0x8000_0000 priv_u false true false false
    && check_access rx 0x8000_0000 priv_u false false true true

-- Every test of the matcher passes on the repository's matcher, whatever the shadows and the
-- registers held before.
scenarios_true :
    (st : PmpState)
    → (napot_decode_sizes st ≡ true)
      × (tor_boundaries st ≡ true)
      × (na4_exact_word st ≡ true)
      × (lowest_index_priority st ≡ true)
      × (no_match_defaults st ≡ true)
      × (locked_enforcement_in_m st ≡ true)
      × (perm_combinations st ≡ true)
unfolding napot_decode_sizes tor_boundaries na4_exact_word lowest_index_priority no_match_defaults
    locked_enforcement_in_m perm_combinations check_access decides allow set_entry
    set_harness_entry0 clear_entries
scenarios_true st = (refl, refl, refl, refl, refl, refl, refl)
