-- ===== src/Lib.antt =====
-- zynq-rtl-flow: the Python of the flow, with the RTL that its testbenches drive.
--
-- The program has three parts that meet at the golden models. The testbenches (tb) drive the RTL
-- (rtl) in a simulator and compare it with the golden models (tb/model). The flow (flows/embedded)
-- turns what the vendor's generators emit into a device tree overlay (overlay.py) and boot
-- components (boot.py). On the board, driver/run-tile.py streams tiles through the accelerator's
-- device node and compares what comes back with the same golden models.
--
--   Base: shared names, Boolean tests, lists, results and integers over the native numbers.
--   Words: two's complement, `x & mask` and signed variables of a given width.
--   Golden: tb/model. Golden.SparseMac is sparse_mac_model.py, Golden.Relu is relu_model.py,
--     Golden.Draws holds both generators, over numpy's generator as the record Golden.Rng, whose laws
--     are the documented shape and range of the draws.
--   Rtl: rtl/sparse_mac_pe.sv (Rtl.Pe: `clock` is the always_ff block) and rtl/relu_unit.sv
--     (Rtl.ReluUnit), both at the default widths. Rtl.AxiLite is the AXI4-Lite slave that both
--     wrappers hold word for word. Rtl.Wrapper is rtl/sparse_cnn_axi.sv and Rtl.ReluAxi is
--     rtl/relu_axi.sv: `aclk_edge` and `relu_edge` are one edge of the clock, for every always_ff block.
--   Bench: tb/sparse_mac_pe/tb_sparse_mac_pe.py (Bench.PeSeam), tb/sparse_cnn_axi/tb_sparse_cnn_axi.py
--     (Bench.SparseSeam) and tb/relu_axi/tb_relu_axi.py (Bench.ReluSeam), each with its tests in
--     Cases. A simulation is the driven pins with the registers; `rising_edge` is the awaited edge.
--     Bench.SparseSeam.Raw is RawAxiLite, each coroutine advanced once an edge, and
--     Bench.SparseSeam.Clocked holds the tests that use the simulator beside the masters:
--     Raw.Watched gives them the wrapper itself, with a _BeatCounter at the handshake.
--     Bench.ReluSeam.Reset is `reset` on the ReLU wrapper.
--   Sources: tb/rtl_sources.py, over bash as a function from its arguments and working
--     directory to its output.
--   Str and Re: Python's string methods on texts as lists of ASCII codes, and the regular
--     expressions of overlay.py, each as a matcher of its own; Re.Template is how `re.sub` reads
--     its replacement.
--   Effects: actions that pass a state on and end in a value or a failure. sys.exit, an assertion
--     and a Python exception are failures.
--   Overlay: flows/embedded/overlay.py. Nodes, Interrupts and Link are its functions, Main is the
--     script from the text of pl.dtsi to the text of the overlay and the printed lines.
--   RunTile: driver/run-tile.py on a board given by its operations (RunTile.Board).
--   Boot: flows/embedded/boot.py on a host given by its operations (Boot.Host).
--   Tests: a generator, a board, hosts and trees, and the theorems at concrete inputs.
--
-- The drivers of both wrappers run over the masters of cocotbext.axi with the simulated wrapper behind
-- them, as the records Bench.SparseSeam.Bus and Bench.ReluSeam.Masters; their polls are bounded by
-- POLL_LIMIT as in the sources. RawAxiLite is code of the repository and runs on Rtl.Wrapper itself: it
-- is an implementation of Bus. Only the stream source is a parameter there: what it offers and queues
-- (Raw.StreamSource) and its pauses, its clear and its reset (Raw.Watched.Controls), with the laws that
-- the tests rely on (Raw.Supply.Supply and Raw.Watched.Obeys).
--
-- Every loop of the sources is structural recursion, on a list, a text or a count, but for fuel in
-- these. The printing of a number has fuel, one more than the number, which Str.Numbers proves
-- enough. The handshakes of RawAxiLite wait for at most so many clock edges and fail with `no_end`
-- behind them; from an idle master one edge is enough for a write, three for a read and two for
-- both at once. So does the wait for beats of test_clear_mid_tile, for a number of edges that the
-- test is given, and Raw.Split proves how many are enough.
-- Numbers are exact integers as in Python; the int64 products of relu_model.py, the registers and
-- ports of the RTL and the packed bytes of run-tile.py wrap at their widths. Fractions of the
-- random generators are in hundredths.
--
-- Not modelled: what the scripts print for a reader (except the lines of overlay.py), the vendor's
-- tools, the AXI masters of cocotbext.axi, the simulator's scheduling and the kernel, which are
-- parameters, the C drivers, and the shell and Tcl of the flow.
pub mod Base
pub mod Bench
pub mod Boot
pub mod Effects
pub mod Golden
pub mod Overlay
pub mod Re
pub mod Rtl
pub mod RunTile
pub mod Sources
pub mod Str
pub mod Tests
pub mod Words
