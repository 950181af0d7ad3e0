-- ===== src/Tests/ReluSeam.antt =====
-- The testbench of the ReLU accelerator on a device that keeps the register map of
-- docs/register-map-relu.md and completes a tile at once.
use zynq_rtl_flow.Base.{
  ℕ, ◌%◌, ◌==◌, List, [], ◌∷◌, ◌++◌, map, length, replicate, Bool, true, false, ◌≡◌, refl, ok, err,
  assertion_error, if◌then◌else◌, ◌-◌,
}
use zynq_rtl_flow.Base.Int.{pos, negsuc, ◌*ℤ◌, shift_right}
use zynq_rtl_flow.Words.{low_bits, signed, wrap}
use zynq_rtl_flow.Golden.Relu.{golden, to_signed}
use zynq_rtl_flow.Rtl.ReluUnit.{relu_unit}
use zynq_rtl_flow.Bench.ReluSeam.{Masters, bytes_of, from_bytes}
use zynq_rtl_flow.Bench.ReluSeam.Cases.{
  test_id_reads_before_any_write, test_reset_values, test_slope_is_eight_bits, expect_tile,
}

record Device : Type 0 where
  en : ℕ
  slope : ℕ
  count : ℕ
  done : Bool
  out : List ℕ

abbrev word_at : ℕ → Device → ℕ
word_at addr d =
    if addr == 0
    then 1380712704
    else if addr == 4
    then d.en
    else if addr == 8
    then (if d.done then 2 else 0)
    else if addr == 12
    then d.slope
    else if addr == 16
    then d.count
    else 0

abbrev store : ℕ → ℕ → Device → Device
store addr value d =
    if addr == 4
    then record d { en = value % 2 }
    else if addr == 12
    then record d { slope = value % 256 }
    else d

abbrev device : Masters
device = record {
  State = Device;
  axil_read = λ addr n d. (ok (bytes_of n (word_at addr d)), d);
  axil_write = λ addr value d. (ok tt, store addr (from_bytes value) d);
  source_send = λ raw d. (
    ok tt,
    record d { out = map (λ x. relu_unit x d.slope) raw; count = length raw; done = true },
  );
  sink_recv = λ d. (ok d.out, d);
  pause_sink = λ on d. d;
  rising_edge = λ d. d;
  s_axis_tready = λ d. d.en == 1;
  drive_tvalid = λ valid d. d;
  drive_tdata = λ word d. d;
  start_monitor = λ d. d;
  monitor_flags = λ d. replicate (d.count - 1) 0 ++ 1 ∷ [];
}

abbrev reset : Device
reset = record { en = 1; slope = 25; count = 0; done = false; out = [] }

test_id_passes : test_id_reads_before_any_write device reset ≡ (ok tt, reset)
unfolding test_id_reads_before_any_write bytes_of
test_id_passes = refl

test_reset_values_passes : test_reset_values device reset ≡ (ok tt, reset)
unfolding test_reset_values bytes_of
test_reset_values_passes = refl

test_slope_passes : test_slope_is_eight_bits device reset ≡ (ok tt, record reset { slope = 7 })
unfolding test_slope_is_eight_bits
test_slope_passes = refl

-- -128 and 5 under the slope of 25
abbrev after_tile : Device
after_tile = record reset { count = 2; done = true; out = 243 ∷ 5 ∷ [] }

expect_tile_passes : expect_tile device (negsuc 127 ∷ pos 5 ∷ []) 25 reset ≡ (ok tt, after_tile)
unfolding expect_tile golden relu_unit to_signed signed low_bits shift_right wrap ◌*ℤ◌
expect_tile_passes = refl

wrong_slope_fails :
    expect_tile device (negsuc 127 ∷ pos 5 ∷ []) 40 reset ≡ (err assertion_error, after_tile)
unfolding expect_tile golden relu_unit to_signed signed low_bits shift_right wrap ◌*ℤ◌
wrong_slope_fails = refl
