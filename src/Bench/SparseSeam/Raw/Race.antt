-- ===== src/Bench/SparseSeam/Raw/Race.antt =====
-- The reads of STATUS that race a START, on the wrapper itself.
use mathlib.Core.Path.{ap₂}
use zynq_rtl_flow.Base.{
  ℕ, Bool, suc, true, false, not, ◌&&◌, ◌≡◌, refl, ap, ◌∙◌, arith, ok, if◌then◌else◌,
}
use zynq_rtl_flow.Effects.{M}
use zynq_rtl_flow.Effects.Laws.{bind-ok}
use zynq_rtl_flow.Rtl.AxiLite.{wr_commit}
use zynq_rtl_flow.Rtl.Wrapper.{aclk_edge, rd_mux}
use zynq_rtl_flow.Bench.SparseSeam.Raw.{
  StreamSource, Settling, settle_write, asking, waiting, finished, Sim, ports, drive, rising_edge,
  present_write, present_read, withdraw, plus, race, write_read_same_cycle,
}
use zynq_rtl_flow.Bench.SparseSeam.Raw.Steps.{
  unsettled, settled, drop_read, IsIdle, rising_edge-IsIdle, settled-settle_write, fires-both,
  accept-edge,
}

module _ (source : StreamSource) where
  -- the cycle in which a write and a read are presented together, behind an idle edge
  abbrev pub race_cycle : ℕ → ℕ → ℕ → Sim source → Sim source
  race_cycle waddr value raddr s =
      drive source (λ m. present_read raddr (present_write waddr value m)) (rising_edge source s)

  -- behind the edge that commits the write, and the one that hands the data over
  abbrev pub raced : Sim source → Sim source
  raced s =
      rising_edge source
        (drive source (λ m. drop_read (withdraw source settled m)) (rising_edge source s))

  race-finished :
      (n got : ℕ) (s : Sim source) → race source n settled (finished got) s ≡ (ok got, s)
  unfolding race
  race-finished n got s =
      bind-ok (settle_write source n settled) (λ _ t. (ok got, t)) s s tt
        (settled-settle_write source n s)

  race-waiting :
      (n : ℕ) (s : Sim source)
      → s.dut.read.rvalid_q ≡ true
      → race source (suc n) settled waiting s ≡ (ok s.dut.read.rdata_q, rising_edge source s)
  unfolding race
  race-waiting n s q =
      ap
        (λ x.
          race source n settled (if x then finished s.dut.read.rdata_q else waiting)
            (rising_edge source s))
        q
      ∙ race-finished n s.dut.read.rdata_q (rising_edge source s)

  -- the masters behind a cycle in which so much of the write fired and the read was accepted or not
  abbrev raced_by : ℕ → Sim source → Settling → Bool → M (Sim source) ℕ
  raced_by n s fire accepted t =
      race source n (plus source unsettled fire) (if accepted then waiting else asking) (
        drive source
          (λ m. record (withdraw source fire m) {
            arvalid = not accepted && (withdraw source fire m).arvalid;
          })
          t)

  race-once :
      (n : ℕ) (c : Sim source)
      → c.aresetn ≡ true
      → c.lite.arvalid ≡ true
      → c.dut.read.rvalid_q ≡ false
      → c.dut.write.aw_pend ≡ false
      → c.dut.write.w_pend ≡ false
      → c.dut.write.bvalid_q ≡ false
      → race source (suc (suc n)) unsettled asking c ≡ (ok (rd_mux (ports source c) c.dut), raced c)
  unfolding race
  race-once n c r v q a w b =
      let (valid, got) = accept-edge source c r v q in
      let t = rising_edge source c in
      ap₂ (λ x y. raced_by (suc n) c x y t) (fires-both source c a w b) (ap not q)
      ∙ (race-waiting n (drive source (λ m. drop_read (withdraw source settled m)) t) valid
          ∙ ap (λ x. (ok x, raced c)) got)

  raced-IsIdle :
      (waddr value raddr : ℕ) (s : Sim source)
      → IsIdle source s
      → s.dut.write.bvalid_q ≡ false
      → s.dut.read.rvalid_q ≡ false
      → IsIdle source
          (raced (drive source (λ m. present_read raddr (present_write waddr value m)) s))
  unfolding rising_edge aclk_edge
  raced-IsIdle waddr value raddr s i b q = record {
    running = i.running;
    no_aw = refl;
    no_w = refl;
    no_ar = refl;
    takes_b = i.takes_b;
    takes_r = i.takes_r;
    aw_free = ground arith;
    w_free = ground arith;
  }

  -- Given two rounds at least, a write and a read from an idle master end together, idle again: the
  -- slave commits the write in the very cycle in which it accepts the read, and the read returns what
  -- its address selects in that cycle.
  pub write_read_same_cycle-ends :
      (n waddr value raddr : ℕ) (s : Sim source)
      → IsIdle source s
      → let c = race_cycle waddr value raddr s in
        (write_read_same_cycle source (suc (suc n)) waddr value raddr s
          ≡ (ok (rd_mux (ports source c) c.dut), raced c))
        × IsIdle source (raced c)
        × (wr_commit c.lite c.dut.write ≡ true)
  unfolding write_read_same_cycle
  write_read_same_cycle-ends n waddr value raddr s i =
      let (j, b, q) = rising_edge-IsIdle source s i in
      let aw = j.aw_free in
      let w = j.w_free in
      (
        race-once n (race_cycle waddr value raddr s) j.running refl q j.aw_free j.w_free b,
        raced-IsIdle waddr value raddr (rising_edge source s) j b q,
        ground arith,
      )
