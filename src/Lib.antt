-- ===== src/Lib.antt =====
-- The programs of sisrv-platform that verify the RV32 core, and what they guarantee.
--
-- The platform is a RISC-V core in SystemVerilog with the programs that test it. The parts modelled
-- here are the Python programs, each a file of its own in the repository, which meet only in files
-- and processes, and the hardware modules that the cocotb tests drive one at a time. A RISCOF run
-- filters its test list (filter_act_testlist.py, filter_testlist.py), builds each test to an ELF
-- file and turns it into the hex files of the simulator's ROM and RAM (elf2sisrv.py). The lock-step
-- run (spike_lockstep.py) generates random programs, runs each on Spike and on the simulator, and
-- compares the traces of retired instructions. The cocotb tests carry reference models and encoders
-- with which they compare a hardware module, and drivers that take it through its handshakes edge
-- by edge. run_benchmarks.py calibrates and checks benchmark runs on the simulator.
--
-- The modules, and the files whose functions they model, by the same names unless stated:
--   Elf       verification/riscof/scripts/elf2sisrv.py: read_u16 to read_u64, load_segments (its
--             loops are header32 and header64 under for_headers, its nested _load_bytes is
--             load_bytes), write_hex (Elf.Image) and main (convert, in Elf.Convert). Elf.Spec is
--             the independent description: the table of loadable segments, and the byte that the
--             last of them puts at an address.
--   Cosim     verification/cosim/spike_lockstep.py: the trace parsers (Cosim.Logs), the program
--             generator (Cosim.Programs), compare_commits (Cosim.Compare), the runners, the worker
--             and main (Cosim.Driver; the worker's and the loop's results are task_results and
--             drain), and write_elf and the commands of a seed (Cosim.Build; run_seed is the worker).
--   Riscof    verification/riscof/plugins: sisrv/riscof_sisrv.py (Riscof.Sisrv, whose child Run has
--             _symbol_addr and runTests) and spike/riscof_spike.py (Riscof.Spike, whose
--             prepare_tests is runTests up to the call of make). Riscof.Format, Riscof.Paths and
--             Riscof.Machine are what they use of str, os.path and the shell.
--   Testlist  verification/riscof/scripts/filter_act_testlist.py (Testlist.Act, whose filter_list is
--             the loop of main and summary_line its last line) and filter_testlist.py
--             (Testlist.Pick, whose pick_test is main).
--   Isa       tb/cocotb: test_decode.py (Isa.Decode), test_alu.py (Isa.Alu), test_pmp.py (Isa.Pmp)
--             and test_decompress.py (Isa.Decompress).
--   Bench     scripts/run_benchmarks.py: the log parsers, and run_coremark_for_isa and
--             run_dhrystone_for_isa (run_coremark and run_dhrystone); Bench.Builds has the build
--             commands and objcopy_to_hex, Bench.Driver run, run_sim and main.
--   CoverageSummary  scripts/ci/summarize_verilator_cov.py: parse_annotate, and main (Report).
--   Rtl       rtl: bus/sisAxiLiteM.sv (Rtl.AxiLite), core/sisAlu.sv (Rtl.Alu), core/sisDecode.sv
--             (Rtl.Decode), core/sisRegFile.sv with tb/cocotb/test_regfile.py (Rtl.RegFile, whose
--             Suite is the tests) and core/sisPmp.sv (Rtl.Pmp, whose Scenarios are the tests of
--             test_pmp.py). A module is its registers, its outputs and what an edge does.
--   Bridge    tb/cocotb/test_axil_bridge.py: the bench and the device as an interface
--             (Bridge.Bench), reset_dut, do_read and do_write (Bridge.Driver; handshakes is the loop
--             over the two write channels, response the end of both) and the tests (Bridge.Suite).
--   Prelude   what they share: Boolean tests, lists measured by native numbers, results with
--             exceptions, the bit operations as arithmetic, text, lines, dictionaries
--             and sorting.
--
-- State is passed explicitly: the two dictionaries of the loader (Images), the counters and the
-- kept entries of the filter (Filtered), the shadow registers (PmpState), the coverage bins
-- (Coverage), the rows of a summary (Summed), the commands run so far (History), the registers of a
-- hardware module, and what a test drives and has seen (Bench). An exception is an `err` of the
-- module's own type. A Python integer is a number of any size, and a signed one (ℤ) where it can be
-- negative: in Isa.Alu, as the exit code of a process, and where `int` reads what nm and the logs
-- of Dhrystone say. The limit that Python sets to the digits of an integer that is read from
-- decimal text or printed is not modelled.
--
-- Loops are structural: over a list, or over the rounds that are left, 100 in the handshakes of the
-- bridge's driver and 32 in the count of ones of a region's address. Fuel is used in two printers
-- of numbers (high_digits, dec_digits), and is the number itself or its successor, which is at
-- least as much as it has digits. Character classes are those of ASCII text. `sorted` is a stable
-- insertion sort (sort_by), and the first of a sorted list is its least text; texts are in the
-- order of their code points.
--
-- Parameters are what the code calls and does not contain: the results of compilers, simulators and
-- other processes, the file system, the configuration and the environment, the random generator,
-- the order in which a pool delivers results, the entries that the YAML library reads, the parsing
-- and printing of floats, and the target cycles that a float product gives. What nm answers may
-- depend on every command run before it. The device under the bridge's driver is an interface,
-- which the repository's bridge fills. Of the simulator the drivers rely on this: after a rising
-- edge a test reads what the ports showed at the edge, and what it then writes is there at the
-- next; in a timer any number of edges may pass. Wires carry numbers that fit them.
--
-- Not modelled are the core's pipeline, its control registers and their tests, the memory fabric,
-- the peripherals, the debug module and the top levels, the expansion of compressed instructions,
-- the UVM and formal environments, the C and assembly software, third-party copies, RISCOF's own
-- make utility, and log messages.
pub mod Prelude
pub mod Elf
pub mod Cosim
pub mod Testlist
pub mod Isa
pub mod Bench
pub mod CoverageSummary
pub mod Riscof
pub mod Rtl
pub mod Bridge
