-- ===== src/Rtl/Pmp.antt =====
-- rtl/core/sisPmp.sv: the region matcher of the physical memory protection. Words have 32 bits and
-- their sums and shifts wrap, as the module's expressions do.
pub mod Napot
pub mod Priority
mod Scenarios
use sisrv_platform.Prelude.{
  ℕ, zero, suc, ◌+◌, ◌-◌, ◌*◌, ◌/◌, ◌%◌, ◌^◌, Bool, true, false, not, ◌&&◌, ◌||◌, ltb, leb, ◌==◌,
  if◌then◌else◌, bit_and, List, [], ◌∷◌,
}

-- while (t < 32 && pa[t]) t = t + 1, with the rounds left until t is 32.
unfoldable pub ones_from : ℕ → ℕ → ℕ → ℕ
ones_from zero t pa = t
ones_from (suc n) t pa =
    let rest = ones_from n (t + 1) pa in if pa / 2 ^ t % 2 == 1 then rest else t

unfoldable pub napot_size_bytes : ℕ → ℕ
unfolding ones_from
napot_size_bytes pa = if pa == 0xFFFF_FFFF then 0xFFFF_FFFF else 8 * 2 ^ ones_from 32 0 pa % 2 ^ 32

-- (pa << 2) & ~(size_bytes - 1)
unfoldable pub napot_base_byte : ℕ → ℕ
napot_base_byte pa =
    bit_and (pa * 4 % 2 ^ 32) (2 ^ 32 - 1 - (napot_size_bytes pa + (2 ^ 32 - 1)) % 2 ^ 32)

unfoldable pub napot_matches : ℕ → ℕ → Bool
napot_matches byte_addr this_addr =
    let base_byte = napot_base_byte this_addr in
    let size_bytes = napot_size_bytes this_addr in
    leb base_byte byte_addr && ltb byte_addr ((base_byte + size_bytes) % 2 ^ 32)

unfoldable pub entry_matches : ℕ → ℕ → ℕ → ℕ → Bool
unfolding napot_matches napot_base_byte napot_size_bytes
entry_matches byte_addr cfg this_addr prev_addr =
    let aw = byte_addr / 2 ^ 2 in
    let a = cfg / 2 ^ 3 % 2 ^ 2 in
    if a == 0
    then false
    else if a == 1
    then leb (prev_addr % 2 ^ 30) aw && ltb aw (this_addr % 2 ^ 30)
    else if a == 2
    then aw == this_addr % 2 ^ 30
    else napot_matches byte_addr this_addr

-- An entry: its byte of `pmpcfg` and its word of `pmpaddr`.
pub record PmpEntry : Type 0 where
  pub cfg : ℕ
  pub addr : ℕ

-- The access that is asked for.
pub record Access : Type 0 where
  pub byte_addr : ℕ
  pub priv : ℕ
  pub req_r : Bool
  pub req_w : Bool
  pub req_x : Bool

-- The loop over the entries: `any_match` and `win_cfg`. It carries the address of the entry before.
unfoldable pub winner : ℕ → ℕ → List PmpEntry → Bool → ℕ → Bool × ℕ
unfolding entry_matches
winner byte_addr prev [] any_match win_cfg = (any_match, win_cfg)
winner byte_addr prev (e ∷ es) any_match win_cfg =
    let hit = entry_matches byte_addr e.cfg e.addr prev && not any_match in
    winner byte_addr e.addr es (any_match || hit) (if hit then e.cfg else win_cfg)

-- cfg[i]
abbrev pub cfg_bit : ℕ → ℕ → Bool
cfg_bit cfg i = cfg / 2 ^ i % 2 == 1

-- What the winning entry decides.
unfoldable pub decides : ℕ → Access → Bool
decides win_cfg a =
    let perm_ok =
      (not a.req_r || cfg_bit win_cfg 0)
      && (not a.req_w || cfg_bit win_cfg 1)
      && (not a.req_x || cfg_bit win_cfg 2) in
    if cfg_bit win_cfg 7 || a.priv == 0b00 then perm_ok else true

-- `allow`, of any number of entries: the module's parameter PMP_ENTRIES is their number.
unfoldable pub allow : List PmpEntry → Access → Bool
unfolding winner
allow [] a = true
allow (e ∷ es) a =
    let (any_match, win_cfg) = winner a.byte_addr 0 (e ∷ es) false 0 in
    if any_match then decides win_cfg a else a.priv == 0b11
