-- ===== src/Tests.antt =====
-- Concrete parameters and inputs at which the theorems are applied.
mod Fixtures
mod Bench
mod RunTile
mod Boot
mod Overlay
mod ReadBack
mod SparseSeam
mod Wrapper
mod Filter
mod Raw
mod Tiles
mod ReluAxi
mod ReluSeam
mod Watched
mod Sources
mod AxiLite
