-- ===== src/Bench/PeSeam.antt =====
-- tb/sparse_mac_pe/tb_sparse_mac_pe.py. The simulation is the pins as driven and the registers of
-- the processing element; a driven value is sampled at the next rising edge.
pub mod Correct
pub mod Cases
use zynq_rtl_flow.Base.{
  ℕ, zero, suc, ◌==◌, Bool, true, false, List, [], ◌∷◌, Result, ok, err, Failure, assertion_error,
  ◌>>=◌, if◌then◌else◌,
}
use zynq_rtl_flow.Base.Int.{ℤ, pos, ◌==ℤ◌}
use zynq_rtl_flow.Words.{low_bits}
use zynq_rtl_flow.Golden.SparseMac.{acc_w, data_w, golden, to_signed, zip}
use zynq_rtl_flow.Rtl.Pe.{Pins, Pe, clock}

pub record Sim : Type 0 where
  pub pins : Pins
  pub pe : Pe

unfoldable pub rising_edge : Sim → Sim
rising_edge s = record s { pe = clock s.pins s.pe }

unfoldable pub read_acc : Sim → ℤ
read_acc s = to_signed (pos s.pe.acc) acc_w

unfoldable pub read_skip : Sim → ℕ
read_skip s = s.pe.skip_count

-- `for _ in range(n): await RisingEdge(dut.clk)`
unfoldable pub wait_edges : ℕ → Sim → Sim
wait_edges zero s = s
wait_edges (suc n) s = wait_edges n (rising_edge s)

unfoldable pub reset_dut : Sim → Sim
unfolding rising_edge wait_edges
reset_dut s =
    let held = record s {
      pins = record {
        rst_n = false;
        en = true;
        clear_acc = false;
        valid_in = false;
        weight = 0;
        act = 0;
      };
    } in
    let cleared = wait_edges 3 held in
    rising_edge (record cleared { pins = record held.pins { rst_n = true } })

-- the pins while the pair is offered
abbrev pub offer : ℤ → ℤ → Pins → Pins
offer w a p = record p { valid_in = true; weight = low_bits data_w w; act = low_bits data_w a }

unfoldable pub feed : Sim → List (ℤ × ℤ) → Sim
feed s [] = s
feed s ((w, a) ∷ pairs) = feed (rising_edge (record s { pins = offer w a s.pins })) pairs

-- the simulation after the stream, and the golden result
unfoldable pub run_stream : Sim → List ℤ → List ℤ → Sim × (ℤ × ℕ)
unfolding feed rising_edge
run_stream s weights acts =
    let fed = feed s (zip weights acts) in
    (
      rising_edge (record fed { pins = record (fed.pins) { valid_in = false } }),
      golden weights acts,
    )

abbrev pub check : Bool → Result (Unit {0})
check b = if b then ok tt else err assertion_error

unfoldable pub check_stream : Sim → List ℤ → List ℤ → Result (Unit {0})
unfolding reset_dut run_stream read_acc read_skip
check_stream s weights acts =
    let (t, exp) = run_stream (reset_dut s) weights acts in
    check (read_acc t ==ℤ exp.0) >>= λ _. check (read_skip t == exp.1)
