-- ===== src/Bench/SparseSeam/Raw/Registers.antt =====
-- What RawAxiLite reads of the wrapper's registers: behind `bring_up`, and right behind a write.
use zynq_rtl_flow.Base.{
  ℕ, suc, ◌+◌, ◌*◌, ◌%◌, true, false, ◌≡◌, refl, ap, ◌∙◌, arith, ok, if◌then◌else◌,
}
use zynq_rtl_flow.Effects.{◌>>=◌}
use zynq_rtl_flow.Effects.Laws.{bind-ok}
use zynq_rtl_flow.Words.{test_bit}
use zynq_rtl_flow.Rtl.Wrapper.{s_idle, Wrapper, Ports, word_bit, aclk_edge, rd_mux}
use zynq_rtl_flow.Bench.SparseSeam.Raw.{
  StreamSource, Sim, ports, drive, present_write, present_read, rising_edge, raw_read_dword,
  raw_write_dword, released,
}
use zynq_rtl_flow.Bench.SparseSeam.Raw.Steps.{IsIdle, rising_edge-IsIdle}
use zynq_rtl_flow.Bench.SparseSeam.Raw.Ends.{read_cycle, delivered, raw_read_dword-ends}
use zynq_rtl_flow.Bench.SparseSeam.Raw.Writes.{write_cycle, written, raw_write_dword-ends}
use zynq_rtl_flow.Bench.SparseSeam.Raw.Cases.{rising_edges, bring_up}

module _ (source : StreamSource) where
  -- The wrapper as reset leaves it, with an idle master.
  pub record IsReset (s : Sim source) : Type 0 where
    pub idle : IsIdle source s
    pub no_tile : s.dut.state ≡ s_idle
    pub not_done : s.dut.done_q ≡ false
    pub no_acc : s.dut.acc_q ≡ 0
    pub no_skip : s.dut.skip_q ≡ 0
    pub no_start : s.dut.ctrl.start_pulse ≡ false
    pub no_clear : s.dut.ctrl.clear_pulse ≡ false
    pub enabled : s.dut.ctrl.en_reg ≡ true

  last-edges :
      (s : Sim source)
      → s.aresetn ≡ false
      → s.lite ≡ released
      → IsReset (rising_edge source (record (rising_edge source s) { aresetn = true }))
  unfolding rising_edge aclk_edge
  last-edges s r m = record {
    idle = record {
      running = refl;
      no_aw = ap (λ x. x.awvalid) m;
      no_w = ap (λ x. x.wvalid) m;
      no_ar = ap (λ x. x.arvalid) m;
      takes_b = ap (λ x. x.bready) m;
      takes_r = ap (λ x. x.rready) m;
      aw_free = ground (arith, ap (λ x. x.awvalid) m);
      w_free = ground (arith, ap (λ x. x.wvalid) m);
    };
    no_tile = ground arith;
    not_done = ground arith;
    no_acc = ground arith;
    no_skip = ground arith;
    no_start = ground (arith, ap (λ x. x.awvalid) m);
    no_clear = ground (arith, ap (λ x. x.awvalid) m);
    enabled = ground (arith, ap (λ x. x.awvalid) m);
  }

  -- Whatever the simulation starts in, `bring_up` with RawAxiLite leaves the master idle and the
  -- wrapper as reset defines it: no tile, no DONE, results of 0, and CTRL with EN alone.
  pub bring_up-IsReset : (s : Sim source) → IsReset (bring_up source s)
  unfolding bring_up
  bring_up-IsReset s =
      last-edges (rising_edges source 4 (record s { aresetn = false; lite = released })) refl refl

  pub written-ctrl :
      (value : ℕ) (s : Sim source)
      → IsIdle source s
      → s.dut.write.bvalid_q ≡ false
      → s.dut.read.rvalid_q ≡ false
      → let t = written source (drive source (present_write 4 value) s) in
        (t.dut.ctrl.start_pulse ≡ test_bit value 0)
        × (t.dut.ctrl.clear_pulse ≡ test_bit value 1)
        × (t.dut.ctrl.en_reg ≡ test_bit value 2)
        × (t.dut.read.rvalid_q ≡ false)
  unfolding rising_edge aclk_edge
  written-ctrl value s i b q = (ground arith, ground arith, ground arith, ground arith)

  bits_of :
      (value : ℕ)
      → word_bit (test_bit value 0)
          + 2 * word_bit (test_bit value 1)
          + 4 * word_bit (test_bit value 2)
        ≡ value % 8
  bits_of value = ground arith

  rd_mux-ctrl :
      (value : ℕ) (p : Ports) (w : Wrapper)
      → p.lite.araddr ≡ 4
      → w.ctrl.start_pulse ≡ test_bit value 0
      → w.ctrl.clear_pulse ≡ test_bit value 1
      → w.ctrl.en_reg ≡ test_bit value 2
      → rd_mux p w ≡ value % 8
  unfolding rd_mux
  rd_mux-ctrl value p w e a b c = rw (e, a, b, c) (bits_of value)

  pub read_cycle-free :
      (addr : ℕ) (s : Sim source)
      → s.dut.read.rvalid_q ≡ false
      → read_cycle source addr s ≡ drive source (present_read addr) s
  read_cycle-free addr s q =
      ap
        (λ b.
          if b
          then rising_edge source (drive source (present_read addr) s)
          else drive source (present_read addr) s)
        q

  -- CTRL read in the cycle behind a write of it returns the three low bits that were written, START
  -- and CLEAR included: the pulses are visible for the one cycle they last.
  pub read-written_ctrl :
      (n value : ℕ) (s : Sim source)
      → IsIdle source s
      → let t = written source (write_cycle source 4 value s) in
        (raw_write_dword source (suc n) 4 value >>= λ _.
        raw_read_dword source (suc (suc (suc n))) 4)
          s
        ≡ (ok (value % 8), delivered source (drive source (present_read 4) t))
  read-written_ctrl n value s i =
      let (j, b, q) = rising_edge-IsIdle source s i in
      let t = written source (write_cycle source 4 value s) in
      let (start, clear, en, free) = written-ctrl value (rising_edge source s) j b q in
      let write = raw_write_dword-ends source n 4 value s i in
      let read = raw_read_dword-ends source n 4 t write.1 in
      bind-ok (raw_write_dword source (suc n) 4 value)
        (λ _. raw_read_dword source (suc (suc (suc n))) 4) s t tt write.0
      ∙ ((rw (read_cycle-free 4 t free) at read.0)
          ∙ ap (λ x. (ok x, delivered source (drive source (present_read 4) t)))
              (rd_mux-ctrl value (ports source (drive source (present_read 4) t)) t.dut refl start
                clear en))
