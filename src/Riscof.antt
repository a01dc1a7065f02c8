-- ===== src/Riscof.antt =====
-- The two RISCOF plugins, verification/riscof/plugins: how a test is compiled, converted and run on
-- the simulator, and on Spike.
pub mod Format
pub mod Paths
pub mod Machine
pub mod Sisrv
pub mod Spike
mod Tests
