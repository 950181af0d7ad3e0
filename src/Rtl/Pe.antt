-- ===== src/Rtl/Pe.antt =====
-- rtl/sparse_mac_pe.sv at the widths of rtl/sparse_cnn_pkg.sv. A port or register is its bits, a
-- number; `signed 8` and `signed 32` read one as the signed variable that it is declared as.
use zynq_rtl_flow.Base.{ℕ, ◌+◌, ◌%◌, ◌^◌, ◌==◌, Bool, false, ◌&&◌, ◌||◌, not, if◌then◌else◌}
use zynq_rtl_flow.Base.Int.{◌*ℤ◌}
use zynq_rtl_flow.Words.{low_bits, signed}

pub record Pins : Type 0 where
  pub rst_n : Bool
  pub en : Bool
  pub clear_acc : Bool
  pub valid_in : Bool
  pub weight : ℕ
  pub act : ℕ

pub record Pe : Type 0 where
  pub acc : ℕ
  pub skip_count : ℕ
  pub valid_out : Bool

abbrev pub is_zero : Pins → Bool
is_zero p = p.weight == 0 || p.act == 0

abbrev pub do_mac : Pins → Bool
do_mac p = p.valid_in && not (is_zero p)

-- the signed product, sign-extended to the accumulator's width
unfoldable pub product : Pins → ℕ
product p = low_bits 32 (signed 8 p.weight *ℤ signed 8 p.act)

-- `always_ff @(posedge clk)`
unfoldable pub clock : Pins → Pe → Pe
clock p s =
    if not p.rst_n
    then record { acc = 0; skip_count = 0; valid_out = false }
    else if p.en
    then record {
      acc = if p.clear_acc then 0 else if do_mac p then (s.acc + product p) % 2 ^ 32 else s.acc;
      skip_count =
          if p.clear_acc
          then 0
          else if p.valid_in && is_zero p
          then (s.skip_count + 1) % 2 ^ 16
          else s.skip_count;
      valid_out = p.valid_in && not p.clear_acc;
    }
    else record s { valid_out = false }
