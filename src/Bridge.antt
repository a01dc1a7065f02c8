-- ===== src/Bridge.antt =====
-- tb/cocotb/test_axil_bridge.py: the driver that reads and writes through the bridge, and its tests.
pub mod Bench
pub mod Driver
pub mod Suite
mod Stages
mod Reads
mod Writes
mod Ends
pub mod Passes
pub mod Bounds
mod Tests
