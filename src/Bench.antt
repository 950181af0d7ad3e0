-- ===== src/Bench.antt =====
-- tb: the cocotb testbenches, run against the modules of Rtl.
pub mod PeSeam
pub mod SparseSeam
pub mod ReluSeam
