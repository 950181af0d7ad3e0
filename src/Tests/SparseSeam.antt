-- ===== src/Tests/SparseSeam.antt =====
-- The testbench of the AXI wrapper on a device that keeps the register map of
-- docs/register-map-sparse-cnn.md and completes a tile at once.
use zynq_rtl_flow.Base.{
  ℕ, ◌+◌, ◌*◌, ◌/◌, ◌%◌, ◌==◌, List, [], ◌∷◌, map, Bool, true, false, ◌≡◌, refl, ok, if◌then◌else◌,
}
use zynq_rtl_flow.Base.Int.{ℤ, pos, negsuc, ◌+ℤ◌, ◌*ℤ◌}
use zynq_rtl_flow.Words.{low_bits, signed, test_bit}
use zynq_rtl_flow.Golden.SparseMac.{golden, golden_from, zip, to_signed}
use zynq_rtl_flow.Bench.SparseSeam.{
  Bus, id_expected, reg_id, reg_ctrl, reg_status, reg_acc, reg_skip, check_tile,
}
use zynq_rtl_flow.Bench.SparseSeam.Cases.{test_id_register, test_register_map}

record Device : Type 0 where
  en : Bool
  busy : Bool
  done : Bool
  acc : ℕ
  skip : ℕ

abbrev bit : Bool → ℕ
bit b = if b then 1 else 0

abbrev read_of : ℕ → Device → ℕ
read_of addr d =
    if addr == reg_id
    then id_expected
    else if addr == reg_ctrl
    then 4 * bit d.en
    else if addr == reg_status
    then bit d.busy + 2 * bit d.done
    else if addr == reg_acc
    then d.acc
    else if addr == reg_skip
    then d.skip
    else 0

abbrev control : ℕ → Device → Device
control value d = record {
  en = test_bit value 2;
  busy = if test_bit value 0 then true else d.busy;
  done = if test_bit value 0 then false else d.done;
  acc = if test_bit value 1 then 0 else d.acc;
  skip = if test_bit value 1 then 0 else d.skip;
}

abbrev operands : ℕ → ℤ × ℤ
operands word = (signed 8 (word % 256), signed 8 (word / 256 % 256))

abbrev complete : ℤ × ℕ → Device → Device
complete (acc, skip) d = record d { busy = false; done = true; acc = low_bits 32 acc; skip = skip }

abbrev bus : Bus
bus = record {
  State = Device;
  read_dword = λ addr d. (ok (read_of addr d), d);
  write_dword = λ addr value d. (ok tt, if addr == reg_ctrl then control value d else d);
  send_frame = λ words d. (ok tt, complete (golden_from (pos 0) 0 (map operands words)) d);
}

abbrev reset : Device
reset = record { en = true; busy = false; done = false; acc = 0; skip = 0 }

abbrev busy_device : Device
busy_device = record reset { busy = true }

test_id_register_passes : test_id_register bus reset ≡ (ok tt, reset)
unfolding test_id_register
test_id_register_passes = refl

test_register_map_passes : test_register_map bus reset ≡ (ok tt, busy_device)
unfolding test_register_map
test_register_map_passes = refl

abbrev some_weights : List ℤ
some_weights = pos 3 ∷ pos 0 ∷ negsuc 127 ∷ []

abbrev some_acts : List ℤ
some_acts = negsuc 4 ∷ pos 9 ∷ negsuc 127 ∷ []

abbrev after_tile : Device
after_tile = record { en = true; busy = false; done = true; acc = 16369; skip = 1 }

tile_passes : check_tile bus some_weights some_acts reset ≡ (ok tt, after_tile)
unfolding check_tile to_signed low_bits golden_from zip signed ◌+ℤ◌ ◌*ℤ◌ golden
tile_passes = refl
