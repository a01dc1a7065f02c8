-- ===== src/Rtl.antt =====
-- rtl/: the hardware modules whose tests are modelled too, each as the function from its inputs and
-- registers to its outputs and its next registers.
pub mod AxiLite
pub mod Alu
pub mod Decode
pub mod RegFile
pub mod Pmp
mod Tests
