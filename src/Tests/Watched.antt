-- ===== src/Tests/Watched.antt =====
-- The tests of the AXI wrapper's testbench that watch the clock pass on the wrapper, with a source
-- that stalls twice before each frame, counts the beats it hands over, and drops a frame at a reset.
use zynq_rtl_flow.Base.{ℕ, [], Bool, true, false, ◌≡◌, refl, ok, arith, if◌then◌else◌}
use zynq_rtl_flow.Bench.SparseSeam.Clocked.{
  test_backpressure_from_wrapper, test_no_beats_before_start, test_explicit_clear,
  test_clear_mid_tile, test_reset_mid_stream, reads_before_done,
}
use zynq_rtl_flow.Bench.SparseSeam.Raw.{Sim, released}
use zynq_rtl_flow.Bench.SparseSeam.Raw.Cases.{bring_up}
use zynq_rtl_flow.Bench.SparseSeam.Raw.Check.{IsReady}
use zynq_rtl_flow.Bench.SparseSeam.Raw.Watched.{Controls, Obeys, counted, watched, counted-Supply}
use zynq_rtl_flow.Bench.SparseSeam.Raw.NoBeats.{test_no_beats_before_start-passes}
use zynq_rtl_flow.Bench.SparseSeam.Raw.Stall.{test_backpressure_from_wrapper-passes}
use zynq_rtl_flow.Bench.SparseSeam.Raw.Cleared.{test_explicit_clear-passes}
use zynq_rtl_flow.Bench.SparseSeam.Raw.Aborted.{test_reset_mid_stream-passes}
use zynq_rtl_flow.Bench.SparseSeam.Raw.Split.{test_clear_mid_tile-passes}
use zynq_rtl_flow.Bench.SparseSeam.Raw.Leak.{reads_before_done-raises}
use zynq_rtl_flow.Bench.SparseSeam.Raw.Supply.{latching}
use zynq_rtl_flow.Bench.SparseSeam.Raw.Reads.{IsPolling}
use zynq_rtl_flow.Base.{assertion_error, err}
use zynq_rtl_flow.Base.Int.{pos, ◌==ℤ◌}
use zynq_rtl_flow.Words.{low_bits}
use zynq_rtl_flow.Golden.SparseMac.{acc_w, to_signed}
use zynq_rtl_flow.Rtl.Wrapper.{s_latch, Wrapper}
use zynq_rtl_flow.Rtl.Wrapper.Edges.{PeHolds}
use zynq_rtl_flow.Tests.Fixtures.{lowest}
use zynq_rtl_flow.Tests.Raw.{wild}
use zynq_rtl_flow.Tests.Tiles.{Waiting, Holds, source, supply}

-- a reset drops the frame, a clear too, and the first of the pauses decides of the stall
abbrev on_reset : Bool → Waiting → Waiting
on_reset false x = (0, [])
on_reset true x = x

abbrev controls : Controls source
controls = record {
  set_pauses = λ f x. (if f 0 then x.0 else 0, x.1);
  clear = λ x. (x.0, []);
  on_reset = on_reset;
}

pauses : (f : ℕ → Bool) (d : ℕ) (x : Waiting) → Holds d [] x → Holds d [] (controls.set_pauses f x)
pauses f d x (none, few) = (none, ground arith)

obeys : Obeys source 2 supply controls
obeys = record {
  pauses = pauses;
  clears = λ d x h. (refl, h.1);
  aborts = λ ready d words x h. (refl, omega arith);
  releases = λ d x h. h;
}

abbrev begun : Sim (counted source)
begun = record {
  aresetn = true;
  lite = released;
  src = record { inner = (1, []); is_started = false; total = 0 };
  dut = wild;
}

abbrev up : Sim (counted source)
up = bring_up (counted source) begun

abbrev Ends : Sim (counted source) → Type 0
Ends t = IsReady (counted source) 2 (counted-Supply source 2 supply) t

test_no_beats_before_start-passes_example :
    (t : Sim (counted source)) × (test_no_beats_before_start (watched source controls 3) lowest up
      ≡ (ok tt, t))
    × Ends t
test_no_beats_before_start-passes_example =
    test_no_beats_before_start-passes source 2 supply controls 0 lowest 1 begun (omega arith)
      (refl, omega arith)

test_backpressure_from_wrapper-passes_example :
    (t : Sim (counted source)) × (test_backpressure_from_wrapper
        (watched source controls 3)
        lowest
        up
      ≡ (ok tt, t))
    × Ends t
test_backpressure_from_wrapper-passes_example =
    test_backpressure_from_wrapper-passes source 2 supply controls 0 lowest 1 begun (omega arith)
      (refl, omega arith)

test_explicit_clear-passes_example :
    (t : Sim (counted source)) × (test_explicit_clear (watched source controls 3) lowest up
      ≡ (ok tt, t))
    × Ends t
test_explicit_clear-passes_example =
    test_explicit_clear-passes source 2 supply controls 0 lowest 1 begun (omega arith)
      (refl, omega arith)

test_reset_mid_stream-passes_example :
    (t : Sim (counted source)) × (test_reset_mid_stream (watched source controls 3) lowest up
      ≡ (ok tt, t))
    × Ends t
test_reset_mid_stream-passes_example =
    test_reset_mid_stream-passes source 2 supply controls 0 lowest 1 begun obeys (omega arith)
      (refl, omega arith)

test_clear_mid_tile-passes_example :
    (t : Sim (counted source)) × (test_clear_mid_tile (watched source controls 3) lowest 28 up
      ≡ (ok tt, t))
    × Ends t
test_clear_mid_tile-passes_example =
    test_clear_mid_tile-passes source 2 supply controls 0 lowest 28 1 begun (omega arith)
      (omega arith) (refl, omega arith)

-- a wrapper that is about to latch 5, with 77 as its last result
abbrev about_to_latch : Wrapper
about_to_latch = record {
  state = s_latch;
  ctrl = record { start_pulse = false; clear_pulse = false; en_reg = true };
  done_q = false;
  acc_q = 77;
  skip_q = 3;
  write = record {
    aw_pend = false;
    w_pend = false;
    bvalid_q = false;
    aw_addr_q = 0;
    w_data_q = 0;
    w_strb_q = 0;
  };
  read = record { rvalid_q = false; rdata_q = 0 };
  pe = record { acc = 5; skip_count = 0; valid_out = true };
}

abbrev late : Sim (counted source)
late = record {
  aresetn = true;
  lite = released;
  src = record { inner = (0, []); is_started = false; total = 0 };
  dut = about_to_latch;
}

holds_five : PeHolds about_to_latch.pe (pos 5) 0
unfolding low_bits
holds_five = record { acc_is = refl; skip_is = refl }

late-IsPolling : IsPolling (counted source) 2 (counted-Supply source 2 supply) (pos 5) 0 2 late
late-IsPolling = record {
  idle = record {
    running = refl;
    no_aw = refl;
    no_w = refl;
    no_ar = refl;
    takes_b = refl;
    takes_r = refl;
    aw_free = refl;
    w_free = refl;
  };
  free = refl;
  calm = record { no_write = (refl, refl, refl, refl, refl); no_clear = refl; enabled = refl };
  ahead = latching 2 0 late refl refl (refl, omega arith) holds_five (omega arith);
}

other_result : (to_signed (pos (low_bits 32 (pos 5))) acc_w ==ℤ pos 77) ≡ false
unfolding to_signed low_bits
other_result = refl

reads_before_done-raises_example :
    (t : Sim (counted source)) × (reads_before_done
        (watched source controls 3)
        10000
        (pos 77, 3)
        false
        late
      ≡ (err assertion_error, t))
reads_before_done-raises_example =
    reads_before_done-raises source 2 supply controls 0 9999 (pos 77, 3) false late late-IsPolling
      refl other_result
