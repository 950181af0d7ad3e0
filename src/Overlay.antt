-- ===== src/Overlay.antt =====
-- flows/embedded/overlay.py: turn the generated device tree of the programmable logic into an
-- overlay. `sys.exit(message)` is `err (exit message)`; a Python exception is the `err` of its name.
pub mod Nodes
pub mod Interrupts
pub mod Link
pub mod Main
pub mod Fixtures
