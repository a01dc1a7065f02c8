-- ===== src/Cosim.antt =====
-- verification/cosim/spike_lockstep.py: random programs are run on Spike and on the RTL, and the two
-- traces of retired instructions are compared.
pub mod Logs
pub mod Compare
pub mod Programs
pub mod Driver
pub mod Build
mod Tests
