-- ===== src/Golden.antt =====
-- tb/model: the golden models that the testbenches and driver/run-tile.py share.
pub mod SparseMac
pub mod Relu
pub mod Rng
pub mod Draws
