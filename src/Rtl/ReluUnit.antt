-- ===== src/Rtl/ReluUnit.antt =====
-- rtl/relu_unit.sv at the widths of rtl/relu_pkg.sv: the ports are bits, a number each.
pub mod Golden
use zynq_rtl_flow.Base.{ℕ, Bool, if◌then◌else◌}
use zynq_rtl_flow.Base.Int.{ℤ, pos, ◌*ℤ◌, shift_right}
use zynq_rtl_flow.Words.{low_bits, signed, wrap}
use zynq_rtl_flow.Golden.Relu.{nonneg}

-- the product, in a signed variable of 8 + 8 + 1 bits
unfoldable pub scaled : ℕ → ℕ → ℤ
scaled x slope = wrap 17 (pos slope *ℤ signed 8 x)

unfoldable pub relu_unit : ℕ → ℕ → ℕ
unfolding scaled
relu_unit x slope = if nonneg (signed 8 x) then x else low_bits 8 (shift_right (scaled x slope) 8)
