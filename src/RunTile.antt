-- ===== src/RunTile.antt =====
-- driver/run-tile.py: run tiles on the board and compare them with the golden models.
pub mod Board
pub mod Bytes
pub mod Interrupts
pub mod Runners
pub mod Main
