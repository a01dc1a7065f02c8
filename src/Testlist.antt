-- ===== src/Testlist.antt =====
-- The two test list filters under verification/riscof/scripts: `Act` is filter_act_testlist.py, which
-- drops whole suites, and `Pick` is filter_testlist.py, which keeps one named test.
pub mod Act
pub mod Pick
mod Tests
