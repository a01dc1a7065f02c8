-- ===== src/Isa.antt =====
-- The reference models of the cocotb tests, tb/cocotb: what the tests compare the hardware with.
mod Tests
pub mod Decode
pub mod Alu
pub mod Pmp
pub mod Decompress
