-- ===== src/Bench/PeSeam/Cases.antt =====
-- The tests of tb/sparse_mac_pe/tb_sparse_mac_pe.py. Each begins on a module in any state.
pub mod Pass
use zynq_rtl_flow.Base.{
  ℕ, zero, suc, ◌+◌, ◌==◌, List, [], ◌∷◌, Bool, true, false, replicate, Result, ok, ◌>>=◌,
}
use zynq_rtl_flow.Base.Int.{ℤ, pos, ◌==ℤ◌}
use zynq_rtl_flow.Golden.SparseMac.{data_max, data_min}
use zynq_rtl_flow.Golden.Rng.{Rng}
use zynq_rtl_flow.Golden.Draws.{gen_pairs}
use zynq_rtl_flow.Bench.PeSeam.{
  Sim, rising_edge, reset_dut, run_stream, read_acc, read_skip, check, check_stream,
}

-- `np.arange(first, first + n)`
unfoldable pub arange : ℕ → ℕ → List ℤ
arange first zero = []
arange first (suc n) = pos first ∷ arange (first + 1) n

module _ (rng : Rng) where
  unfoldable pub test_dense : Sim → Result (Unit {0})
  test_dense dut = let (w, a) = gen_pairs rng 64 0 1 in check_stream dut w a

  unfoldable pub test_sparse : Sim → Result (Unit {0})
  test_sparse dut = let (w, a) = gen_pairs rng 128 70 2 in check_stream dut w a

unfoldable pub test_all_zero : Sim → Result (Unit {0})
test_all_zero dut = check_stream dut (replicate 32 (pos 0)) (arange 1 32)

unfoldable pub test_saturation_range : Sim → Result (Unit {0})
test_saturation_range dut = check_stream dut (replicate 100 data_max) (replicate 100 data_min)

-- the simulation behind one edge with `clear_acc` high, the pin low again
unfoldable pub pulse_clear : Sim → Sim
unfolding rising_edge
pulse_clear s =
    let cleared =
      rising_edge (record s { pins = record (s.pins) { valid_in = false; clear_acc = true } }) in
    record cleared { pins = record (cleared.pins) { clear_acc = false } }

unfoldable pub test_clear_acc : Sim → Result (Unit {0})
unfolding pulse_clear
test_clear_acc dut =
    let t =
      (run_stream (reset_dut dut) (pos 3 ∷ pos 4 ∷ pos 5 ∷ []) (pos 2 ∷ pos 2 ∷ pos 2 ∷ [])).0 in
    check (read_acc t ==ℤ pos 24) >>= λ _.
    check (read_acc (pulse_clear t) ==ℤ pos 0) >>= λ _. check (read_skip (pulse_clear t) == 0)
