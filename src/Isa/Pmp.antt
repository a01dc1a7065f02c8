-- ===== src/Isa/Pmp.antt =====
-- tb/cocotb/test_pmp.py: the packed registers that the tests drive, and the mask of a naturally
-- aligned region.
pub mod Registers
pub mod Napot
use sisrv_platform.Prelude.{
  ℕ, ◌+◌, ◌-◌, ◌*◌, ◌^◌, Bool, true, false, ◌==◌, if◌then◌else◌, bit_and, bit_or, bit_xor, ◌<<<◌,
}

abbrev pub all_ones : ℕ
all_ones = 0xFFFF_FFFF

-- n & ~mask
abbrev pub clear_bits : ℕ → ℕ → ℕ
clear_bits n mask = n - bit_and n mask

-- ~x & 0xFFFFFFFF is all ones without the bits of x.
unfoldable pub napot_mask : ℕ → ℕ
napot_mask pa =
    let low = bit_and pa all_ones in
    if low == all_ones then all_ones else clear_bits all_ones (bit_xor low (low + 1))

-- The two shadows; the registers of the device are driven with them.
pub record PmpState : Type 0 where
  pub cfg_shadow : ℕ
  pub addr_shadow : ℕ
  pub pmpcfg : ℕ
  pub pmpaddr : ℕ

unfoldable pub entry_cfg_shift : ℕ → ℕ
entry_cfg_shift idx = idx * 8

unfoldable pub entry_addr_shift : ℕ → ℕ
entry_addr_shift idx = idx * 32

unfoldable pub set_entry : ℕ → ℕ → ℕ → PmpState → PmpState
unfolding entry_cfg_shift entry_addr_shift
set_entry idx cfg addr st =
    let cfg_shift = entry_cfg_shift idx in
    let addr_shift = entry_addr_shift idx in
    let cfg_byte_mask = 0xFF <<< cfg_shift in
    let addr_word_mask = ((1 <<< 32) - 1) <<< addr_shift in
    let cfg_shadow' =
      bit_or (clear_bits st.cfg_shadow cfg_byte_mask) (bit_and cfg 0xFF <<< cfg_shift) in
    let addr_shadow' =
      bit_or (clear_bits st.addr_shadow addr_word_mask) (bit_and addr all_ones <<< addr_shift) in
    record {
      cfg_shadow = cfg_shadow';
      addr_shadow = addr_shadow';
      pmpcfg = cfg_shadow';
      pmpaddr = addr_shadow';
    }

unfoldable pub set_harness_entry0 : PmpState → PmpState
set_harness_entry0 st = set_entry 0 0x1F 0x1FFF st

unfoldable pub clear_entries : PmpState → PmpState
clear_entries st = record { cfg_shadow = 0; addr_shadow = 0; pmpcfg = 0; pmpaddr = 0 }
