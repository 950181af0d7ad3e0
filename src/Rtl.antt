-- ===== src/Rtl.antt =====
-- rtl: the modules that the testbenches drive, one function per clock edge.
pub mod Pe
pub mod ReluUnit
pub mod AxiLite
pub mod ReluAxi
pub mod Wrapper
