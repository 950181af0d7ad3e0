-- ===== src/Bench/SparseSeam/Raw/Writes.antt =====
-- A write of RawAxiLite ends on the wrapper, and what it has done by then.
use zynq_rtl_flow.Base.{ℕ, suc, true, false, ◌≡◌, refl, arith, ok}
use zynq_rtl_flow.Rtl.AxiLite.{wr_commit, wr_addr, wr_data, wr_strb}
use zynq_rtl_flow.Rtl.Wrapper.{aclk_edge}
use zynq_rtl_flow.Bench.SparseSeam.Raw.{
  StreamSource, Sim, drive, rising_edge, present_write, withdraw, raw_write_dword,
}
use zynq_rtl_flow.Bench.SparseSeam.Raw.Steps.{
  settled, IsIdle, rising_edge-IsIdle, settle_write-once,
}

module _ (source : StreamSource) where
  -- the cycle of a write: its address and data are presented behind an idle edge
  abbrev pub write_cycle : ℕ → ℕ → Sim source → Sim source
  write_cycle addr value s = drive source (present_write addr value) (rising_edge source s)

  abbrev pub written : Sim source → Sim source
  written s = drive source (withdraw source settled) (rising_edge source s)

  -- The slave commits the write in the cycle that presents it.
  pub write_cycle-commits :
      (addr value : ℕ) (s : Sim source)
      → IsIdle source s
      → let p = write_cycle addr value s in
        (wr_commit p.lite p.dut.write ≡ true)
        × (wr_addr p.lite p.dut.write ≡ addr)
        × (wr_data p.lite p.dut.write ≡ value)
        × (wr_strb p.lite p.dut.write ≡ 15)
  write_cycle-commits addr value s i =
      let (j, b, _) = rising_edge-IsIdle source s i in
      let aw = j.aw_free in
      let w = j.w_free in (ground arith, ground arith, ground arith, ground arith)

  written-IsIdle :
      (addr value : ℕ) (s : Sim source)
      → IsIdle source s
      → (s.dut.write.bvalid_q ≡ false)
      → IsIdle source (written (drive source (present_write addr value) s))
  unfolding rising_edge aclk_edge
  written-IsIdle addr value s i b = record {
    running = i.running;
    no_aw = refl;
    no_w = refl;
    no_ar = i.no_ar;
    takes_b = i.takes_b;
    takes_r = i.takes_r;
    aw_free = ground arith;
    w_free = ground arith;
  }

  -- Given a round at least, a write from an idle master ends, two edges later and idle again; in the
  -- second cycle the slave commits it, with its address, its value and every byte enabled.
  pub raw_write_dword-ends :
      (n addr value : ℕ) (s : Sim source)
      → IsIdle source s
      → let p = write_cycle addr value s in
        (raw_write_dword source (suc n) addr value s ≡ (ok tt, written p))
        × IsIdle source (written p)
        × (wr_commit p.lite p.dut.write ≡ true)
        × (wr_addr p.lite p.dut.write ≡ addr)
        × (wr_data p.lite p.dut.write ≡ value)
        × (wr_strb p.lite p.dut.write ≡ 15)
  unfolding raw_write_dword
  raw_write_dword-ends n addr value s i =
      let (j, b, _) = rising_edge-IsIdle source s i in
      let committed = write_cycle-commits addr value s i in
      (
        settle_write-once source n (write_cycle addr value s) j.aw_free j.w_free b,
        written-IsIdle addr value (rising_edge source s) j b,
        committed.0,
        committed.1,
        committed.2,
        committed.3,
      )
