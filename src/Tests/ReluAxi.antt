-- ===== src/Tests/ReluAxi.antt =====
-- The theorems on rtl/relu_axi.sv and its testbench over a tile of two activations with stalls of the
-- source and of the sink.
use zynq_rtl_flow.Base.{
  ℕ, ◌+◌, ◌≤◌, List, [], ◌∷◌, ◌++◌, map, length, All, Bool, true, false, ◌≡◌, refl, ok, arith,
}
use zynq_rtl_flow.Base.Int.{ℤ, pos, negsuc, shift_right, ◌*ℤ◌}
use zynq_rtl_flow.Words.{low_bits, signed, wrap, IsSigned}
use zynq_rtl_flow.Golden.Relu.{golden}
use zynq_rtl_flow.Rtl.AxiLite.{LiteMaster}
use zynq_rtl_flow.Rtl.ReluAxi.{ReluPorts, ReluAxi, relu_edge, relu_mux, in_fire, tile_done}
use zynq_rtl_flow.Rtl.ReluAxi.Stream.{
  OutBeat, Flow, at_rest, edge, activate, held, handed, Flow-queue,
}
use zynq_rtl_flow.Rtl.ReluAxi.Accounting.{AtRest}
use zynq_rtl_flow.Rtl.ReluAxi.Tile.{tile_overlap}
use zynq_rtl_flow.Rtl.ReluAxi.Golden.{frame, reading, last_flags, tile-golden_relu}
use zynq_rtl_flow.Rtl.ReluUnit.{relu_unit}
use zynq_rtl_flow.Bench.ReluSeam.{Masters}
use zynq_rtl_flow.Bench.ReluSeam.Cases.{expect_tile}
use zynq_rtl_flow.Bench.ReluSeam.Golden.{bytes, expect_tile-passes}

abbrev idle_master : LiteMaster
idle_master = record {
  awaddr = 0;
  awvalid = false;
  wdata = 0;
  wstrb = 0;
  wvalid = false;
  bready = true;
  araddr = 0;
  arvalid = false;
  rready = true;
}

-- the ports: a beat or none, and a sink that is ready or not
abbrev cycle : Bool → Bool → ℕ → Bool → ReluPorts
cycle valid last word ready = record {
  aresetn = true;
  lite = idle_master;
  tdata = word;
  tvalid = valid;
  tlast = last;
  m_tready = ready;
}

abbrev quiet : ReluAxi
quiet = record {
  en_reg = true;
  slope_reg = 128;
  stage = record { out_valid_q = false; out_last_q = false; out_data_q = 0 };
  account = record { busy_q = false; done_q = true; beats_q = 0; count_q = 9 };
  write = record {
    aw_pend = false;
    w_pend = false;
    bvalid_q = false;
    aw_addr_q = 0;
    w_data_q = 0;
    w_strb_q = 0;
  };
  read = record { rvalid_q = false; rdata_q = 0 };
}

quiet-AtRest : AtRest quiet
quiet-AtRest = record { free = refl; no_beats = refl; not_busy = refl }

-- -4, which leaves as -2, and 5
abbrev tile : List ℤ
tile = negsuc 3 ∷ pos 5 ∷ []

abbrev tile_bytes : All (IsSigned 8) tile
tile_bytes = omega arith

-- nothing; the first beat; the sink not ready; both handshakes
abbrev c0 : ReluPorts
c0 = cycle false false 0 true

abbrev c1 : ReluPorts
c1 = cycle true false 252 true

abbrev c2 : ReluPorts
c2 = cycle true true 5 false

abbrev c3 : ReluPorts
c3 = cycle true true 5 true

abbrev w1 : ReluAxi
w1 = relu_edge c0 quiet

abbrev w2 : ReluAxi
w2 = relu_edge c1 w1

abbrev w3 : ReluAxi
w3 = relu_edge c2 w2

abbrev w4 : ReluAxi
w4 = relu_edge c3 w3

abbrev outs : List OutBeat
outs = (254, false) ∷ []

flow : Flow quiet (frame 128 tile) outs w4
unfolding relu_edge frame signed low_bits shift_right wrap ◌*ℤ◌
flow =
    edge c0 quiet w4 (frame 128 tile) outs refl (
      edge c1 w1 w4 _ outs refl (edge c2 w2 w4 _ outs refl (edge c3 w3 w4 [] [] refl (at_rest w4))))

-- the last beat leaves
ends : tile_done c0 w4 ≡ true
unfolding relu_edge
ends = refl

none_offered : in_fire c0 w4 ≡ false
none_offered = refl

abbrev bytes_out : List OutBeat
bytes_out = outs ++ handed c0 w4

Flow-queue_example :
    (held quiet ++ map activate (frame 128 tile) ≡ outs ++ held w4) × (length (held w4) ≤ 1)
Flow-queue_example = Flow-queue flow

tile-golden_relu_example :
    (map (λ b. signed 8 b.0) bytes_out ≡ golden tile 128)
    × (map (λ b. b.1) bytes_out ≡ last_flags 2)
    × (relu_mux (reading 16 c1) (relu_edge c0 w4) ≡ 2)
    × (relu_mux (reading 8 c1) (relu_edge c0 w4) ≡ 2)
tile-golden_relu_example =
    tile-golden_relu c0 c1 quiet w4 128 (negsuc 3) (pos 5 ∷ []) outs tile_bytes (omega arith)
      quiet-AtRest flow (refl, tt) refl ends none_offered

-- and a beat of the next tile is taken in that cycle
ends_overlapped : tile_done c1 w4 ≡ true
unfolding relu_edge
ends_overlapped = refl

overlapped : in_fire c1 w4 ≡ true
unfolding relu_edge
overlapped = refl

tile_overlap_example :
    let u = relu_edge c1 w4 in
    (outs ++ handed c1 w4 ≡ map activate (frame 128 tile))
    × (held u ≡ (relu_unit 252 w4.slope_reg, false) ∷ [])
    × (u.account.count_q ≡ 3)
    × (u.account.busy_q ≡ false)
    × (u.account.done_q ≡ true)
    × (u.account.beats_q ≡ 0)
unfolding frame
tile_overlap_example =
    tile_overlap c1 quiet w4 (frame 128 tile) outs quiet-AtRest flow (refl, tt) refl ends_overlapped
      overlapped

-- masters that hand over what the wrapper does
abbrev masters : Masters
masters = record {
  State = ℕ;
  axil_read = λ addr n s. (ok (0 ∷ 0 ∷ 0 ∷ 0 ∷ []), s);
  axil_write = λ addr value s. (ok tt, s);
  source_send = λ raw s. (ok tt, s);
  sink_recv = λ s. (ok (bytes bytes_out), s);
  pause_sink = λ on s. s;
  rising_edge = λ s. s + 1;
  s_axis_tready = λ s. false;
  drive_tvalid = λ valid s. s;
  drive_tdata = λ word s. s;
  start_monitor = λ s. s;
  monitor_flags = λ s. [];
}

expect_tile-passes_example : expect_tile masters tile 128 7 ≡ (ok tt, 7)
expect_tile-passes_example =
    expect_tile-passes masters c0 quiet w4 128 tile outs 7 7 7 tile_bytes (omega arith) quiet-AtRest
      flow ends refl refl
