-- ===== src/Isa/Pmp/Registers.antt =====
-- The packed registers as a table of entries.
use sisrv_platform.Prelude.{
  ℕ, ◌%◌, ◌^◌, ◌≡◌, refl, ◌==◌, if◌then◌else◌, bit_and_mask, field, set_field, field-set_field,
  masked-set_field, arith,
}
use sisrv_platform.Isa.Pmp.{PmpState, set_entry}

-- What the device is driven with at an index: index 0 in the lowest byte and word.
abbrev pub cfg_entry : ℕ → PmpState → ℕ
cfg_entry idx st = field 8 idx st.pmpcfg

abbrev pub addr_entry : ℕ → PmpState → ℕ
addr_entry idx st = field 32 idx st.pmpaddr

-- The registers show the shadows.
pub record IsDriven (st : PmpState) : Type 0 where
  pub cfg_driven : st.pmpcfg ≡ st.cfg_shadow
  pub addr_driven : st.pmpaddr ≡ st.addr_shadow

set_entry-cfg :
    (idx cfg addr : ℕ) (st : PmpState)
    → (set_entry idx cfg addr st).pmpcfg ≡ set_field 8 idx (cfg % 2 ^ 8) st.cfg_shadow
unfolding set_entry
set_entry-cfg idx cfg addr st =
    rw (bit_and_mask 8 cfg) (masked-set_field 8 idx (cfg % 2 ^ 8) st.cfg_shadow (omega arith))

set_entry-addr :
    (idx cfg addr : ℕ) (st : PmpState)
    → (set_entry idx cfg addr st).pmpaddr ≡ set_field 32 idx (addr % 2 ^ 32) st.addr_shadow
unfolding set_entry
set_entry-addr idx cfg addr st =
    rw (bit_and_mask 32 addr) (masked-set_field 32 idx (addr % 2 ^ 32) st.addr_shadow (omega arith))

-- Setting an entry of driven registers leaves them driven, with the entry's new byte and word at
-- its index, and at every other index what was there.
pub set_entry-table :
    (idx cfg addr j : ℕ) (st : PmpState)
    → IsDriven st
    → (cfg_entry j (set_entry idx cfg addr st) ≡ (if idx == j then cfg % 2 ^ 8 else cfg_entry j st))
      × (addr_entry j (set_entry idx cfg addr st)
          ≡ (if idx == j then addr % 2 ^ 32 else addr_entry j st))
      × IsDriven (set_entry idx cfg addr st)
set_entry-table idx cfg addr j st h = (
  rw (set_entry-cfg idx cfg addr st, h.cfg_driven)
      (field-set_field 8 idx j (cfg % 2 ^ 8) st.cfg_shadow (omega arith)),
  rw (set_entry-addr idx cfg addr st, h.addr_driven)
      (field-set_field 32 idx j (addr % 2 ^ 32) st.addr_shadow (omega arith)),
  unfold set_entry in record { cfg_driven = refl; addr_driven = refl },
)
