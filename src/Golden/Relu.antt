-- ===== src/Golden/Relu.antt =====
-- tb/model/relu_model.py: what the Leaky ReLU accelerator computes.
use zynq_rtl_flow.Base.{ℕ, ◌-◌, ◌^◌, List, map, Bool, if◌then◌else◌, leb}
use zynq_rtl_flow.Base.Int.{ℤ, pos, negsuc, pos_part, neg_part, sub_ℕ, ◌*ℤ◌, shift_right}
use zynq_rtl_flow.Words.{low_bits, test_bit, wrap}

abbrev pub data_w : ℕ
data_w = 8

abbrev pub slope_w : ℕ
slope_w = 8

abbrev pub slope_reset : ℕ
slope_reset = 25

abbrev pub count_w : ℕ
count_w = 16

abbrev pub data_min : ℤ
data_min = negsuc (2 ^ (data_w - 1) - 1)

abbrev pub data_max : ℤ
data_max = pos (2 ^ (data_w - 1) - 1)

abbrev pub data_mask : ℕ
data_mask = 2 ^ data_w - 1

unfoldable pub to_signed : ℤ → ℕ → ℤ
to_signed value width =
    let raw = low_bits width value in
    if test_bit raw (width - 1) then sub_ℕ raw (2 ^ width) else pos raw

-- `x >= 0`
abbrev pub nonneg : ℤ → Bool
nonneg x = leb (neg_part x) (pos_part x)

-- one element of the tile: the product is an int64 and wraps as one
unfoldable pub leaky : ℕ → ℤ → ℤ
leaky slope x = if nonneg x then x else shift_right (wrap 64 (x *ℤ pos slope)) slope_w

unfoldable pub golden : List ℤ → ℕ → List ℤ
unfolding leaky
golden activations slope = map (leaky slope) activations
