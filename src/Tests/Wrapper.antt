-- ===== src/Tests/Wrapper.antt =====
-- The theorems on the wrapper of rtl/sparse_cnn_axi.sv over a short tile with a stall.
use zynq_rtl_flow.Base.{
  ℕ, List, [], ◌∷◌, ◌^◌, ◌<◌, All, length, map, Bool, true, false, ◌≡◌, ◌≢◌, inr, refl, ok, arith,
}
use zynq_rtl_flow.Base.Int.{ℤ, pos}
use zynq_rtl_flow.Words.{low_bits}
use zynq_rtl_flow.Golden.SparseMac.{golden, to_signed, zip}
use zynq_rtl_flow.Golden.Draws.Range.{IsPair}
use zynq_rtl_flow.Rtl.AxiLite.{LiteMaster}
use zynq_rtl_flow.Rtl.Wrapper.{s_idle, s_latch, Ports, Wrapper, aclk_edge, status_word}
use zynq_rtl_flow.Rtl.Wrapper.Tile.{Throughout, Feeds, last_beat, stalled, accepted}
use zynq_rtl_flow.Rtl.Wrapper.Status.{
  IsWellFormed, at_once, aclk_edge-IsWellFormed, status_word-InFlight,
}
use zynq_rtl_flow.Bench.SparseSeam.{assert_tile_in_flight, pack_pair}
use zynq_rtl_flow.Bench.SparseSeam.Golden.{tile-golden}

-- a master that reads STATUS all the time
abbrev polling : LiteMaster
polling = record {
  awaddr = 0;
  awvalid = false;
  wdata = 0;
  wstrb = 0;
  wvalid = false;
  bready = true;
  araddr = 8;
  arvalid = true;
  rready = true;
}

-- the ports with a beat offered or none, and the buses idle
abbrev offers : Bool → Bool → ℕ → Ports
offers valid last word = record {
  aresetn = true;
  lite = polling;
  tdata = word;
  tvalid = valid;
  tlast = last;
}

-- the ports with a write of EN and START to CTRL
abbrev writes_start : Ports
writes_start = record (offers false false 0) {
  lite = record polling { awaddr = 4; awvalid = true; wdata = 5; wstrb = 15; wvalid = true };
}

-- idle behind a tile, DONE set
abbrev resting : Wrapper
resting = record {
  state = s_idle;
  ctrl = record { start_pulse = false; clear_pulse = false; en_reg = true };
  done_q = true;
  acc_q = 77;
  skip_q = 3;
  write = record {
    aw_pend = false;
    w_pend = false;
    bvalid_q = false;
    aw_addr_q = 0;
    w_data_q = 0;
    w_strb_q = 0;
  };
  read = record { rvalid_q = false; rdata_q = 0 };
  pe = record { acc = 77; skip_count = 3; valid_out = false };
}

abbrev started : Wrapper
started = record resting {
  ctrl = record { start_pulse = true; clear_pulse = false; en_reg = true };
}

abbrev none : Ports
none = offers false false 0

abbrev running : Wrapper
running = aclk_edge none (aclk_edge none started)

abbrev after_stall : Wrapper
after_stall = aclk_edge none running

-- weight 3, activation 2; and the last beat: weight 0
abbrev first_word : ℕ
first_word = 515

abbrev last_word : ℕ
last_word = 1792

abbrev fed : Wrapper
fed = aclk_edge (offers true true last_word) (aclk_edge (offers true false first_word) after_stall)

feeds : Feeds running (first_word ∷ last_word ∷ []) fed
unfolding aclk_edge
feeds =
    stalled none running fed (first_word ∷ last_word ∷ []) (refl, refl) refl
      (accepted (offers true false first_word) after_stall fed (last_word ∷ []) (refl, refl) refl
        refl
        (last_beat (offers true true last_word)
          (aclk_edge (offers true false first_word) after_stall) (refl, refl) refl refl))

quiet_started : (aclk_edge none started).ctrl.clear_pulse ≡ false
unfolding aclk_edge
quiet_started = refl

quiet_fed : fed.ctrl.clear_pulse ≡ false
unfolding aclk_edge
quiet_fed = refl

aclk_edge-IsWellFormed_example : IsWellFormed (aclk_edge none resting)
aclk_edge-IsWellFormed_example = aclk_edge-IsWellFormed none resting (inr refl)

not_latching : resting.state ≢ s_latch
not_latching e = ground arith

status_word-InFlight_example :
    (assert_tile_in_flight (status_word writes_start resting) tt ≡ (ok tt, tt))
    × (assert_tile_in_flight (status_word none (aclk_edge writes_start resting)) tt ≡ (ok tt, tt))
status_word-InFlight_example =
    status_word-InFlight writes_start none resting (aclk_edge writes_start resting) refl refl
      not_latching refl (at_once (aclk_edge writes_start resting))

abbrev weights : List ℤ
weights = pos 3 ∷ pos 0 ∷ []

abbrev acts : List ℤ
acts = pos 2 ∷ pos 7 ∷ []

pairs : All IsPair (zip weights acts)
unfolding zip
pairs = omega arith

short : length (zip weights acts) < 2 ^ 16
unfolding zip
short = omega arith

packed : map pack_pair (zip weights acts) ≡ first_word ∷ last_word ∷ []
unfolding pack_pair zip low_bits
packed = refl

packed-Feeds : Feeds running (map pack_pair (zip weights acts)) fed
packed-Feeds = rw packed feeds

tile-golden_example :
    ((aclk_edge none started).done_q ≡ false)
    × Throughout (λ u. u.done_q ≡ false) packed-Feeds
    × ((aclk_edge none fed).done_q ≡ true)
    × (to_signed (pos (aclk_edge none fed).acc_q) 32 ≡ (golden weights acts).0)
    × ((aclk_edge none fed).skip_q ≡ (golden weights acts).1)
tile-golden_example =
    tile-golden none none none started fed weights acts pairs short (refl, refl) refl refl
      (refl, quiet_started) packed-Feeds (refl, quiet_fed)
