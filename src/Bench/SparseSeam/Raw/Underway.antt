-- ===== src/Bench/SparseSeam/Raw/Underway.antt =====
-- A tile on its way through the wrapper while CTRL.EN is written.
use zynq_rtl_flow.Base.{ℕ, suc, ◌≤◌, Bool, true, false, ◌≡◌, ◌∙◌, arith, ok}
use zynq_rtl_flow.Base.Int.{ℤ}
use zynq_rtl_flow.Words.{test_bit}
use zynq_rtl_flow.Rtl.Wrapper.{tready}
use zynq_rtl_flow.Rtl.Wrapper.Edges.{Quiet}
use zynq_rtl_flow.Bench.SparseSeam.Raw.{
  StreamSource, Sim, ports, rising_edge, present_write, withdraw, raw_write_dword,
}
use zynq_rtl_flow.Bench.SparseSeam.Raw.Steps.{settled, IsIdle, rising_edge-IsIdle}
use zynq_rtl_flow.Bench.SparseSeam.Raw.Writes.{write_cycle, written, raw_write_dword-ends}
use zynq_rtl_flow.Bench.SparseSeam.Raw.Registers.{written-ctrl}
use zynq_rtl_flow.Bench.SparseSeam.Raw.Supply.{
  Supply, calm-ctrl, Ahead, starting, clearing, running, latching, complete,
}
use zynq_rtl_flow.Bench.SparseSeam.Raw.Progress.{disabled-tready}
use zynq_rtl_flow.Bench.SparseSeam.Raw.Advance.{Ahead-edge_enabled, Ahead-edge_disabled}
use zynq_rtl_flow.Bench.SparseSeam.Raw.Reads.{IsPolling, drive-Ahead}

module _ (source : StreamSource) (lag : ℕ) (supply : Supply source lag) where
  -- at most so many edges are at most so many more
  Ahead-more :
      {acc : ℤ} {skip m : ℕ} {s : Sim source} (k : ℕ)
      → m ≤ k
      → Ahead source lag supply acc skip m s
      → Ahead source lag supply acc skip k s
  Ahead-more k more (starting m d word words s a b h g le) =
      starting k d word words s a b h g (omega (arith, le))
  Ahead-more k more (clearing m d word words s a b h g le) =
      clearing k d word words s a b h g (omega (arith, le))
  Ahead-more k more (running m d word words s a b h partial skips held g le) =
      running k d word words s a b h partial skips held g (omega (arith, le))
  Ahead-more k more (latching m d s a b h held le) = latching k d s a b h held (omega (arith, le))
  Ahead-more k more (complete m d s a b c h i j) = complete k d s a b c h i j

  -- an edge, whatever EN is
  Ahead-edge_either :
      (en : Bool) {acc : ℤ} {skip m : ℕ} {s : Sim source}
      → Quiet (ports source s) s.dut
      → s.dut.ctrl.en_reg ≡ en
      → (rising_edge source s).dut.ctrl.start_pulse ≡ false
      → Ahead source lag supply acc skip m s
      → Ahead source lag supply acc skip m (rising_edge source s)
  Ahead-edge_either true {m = m} q en no_start a =
      Ahead-more m (omega arith) (Ahead-edge_enabled source lag supply q en no_start a)
  Ahead-edge_either false q en no_start a = Ahead-edge_disabled source lag supply q en no_start a

  -- The master is idle, EN is so, and a tile is at most so many edges with EN set from its end.
  pub record IsUnderway (en : Bool) (acc : ℤ) (skip m : ℕ) (s : Sim source) : Type 0 where
    pub idle : IsIdle source s
    pub no_clear : s.dut.ctrl.clear_pulse ≡ false
    pub en_is : s.dut.ctrl.en_reg ≡ en
    pub ahead : Ahead source lag supply acc skip m s

  pub polling-IsUnderway :
      {acc : ℤ} {skip m : ℕ} {s : Sim source}
      → IsPolling source lag supply acc skip m s
      → IsUnderway true acc skip m s
  polling-IsUnderway h = record {
    idle = h.idle;
    no_clear = h.calm.no_clear;
    en_is = h.calm.enabled;
    ahead = h.ahead;
  }

  pub IsIdle-calm :
      (s : Sim source)
      → IsIdle source s
      → let t = rising_edge source s in
        (t.dut.ctrl.start_pulse ≡ false)
        × (t.dut.ctrl.clear_pulse ≡ false)
        × (t.dut.ctrl.en_reg ≡ s.dut.ctrl.en_reg)
  unfolding rising_edge
  IsIdle-calm s i =
      let (start, clear, en, _, _) =
        calm-ctrl (ports source s) s.dut (i.running, i.no_aw, i.no_w, i.aw_free, i.w_free) in
      (start, clear, en)

  pub IsUnderway-edge :
      {en : Bool} {acc : ℤ} {skip m : ℕ} {s : Sim source}
      → IsUnderway en acc skip m s
      → IsUnderway en acc skip m (rising_edge source s)
  IsUnderway-edge {en} {s = s} h =
      let (start, clear, same) = IsIdle-calm s h.idle in
      record {
        idle = (rising_edge-IsIdle source s h.idle).0;
        no_clear = clear;
        en_is = same ∙ h.en_is;
        ahead = Ahead-edge_either en (h.idle.running, h.no_clear) h.en_is start h.ahead;
      }

  -- while EN is low, READY is
  pub IsUnderway-tready :
      {acc : ℤ} {skip m : ℕ} {s : Sim source} → IsUnderway false acc skip m s → tready s.dut ≡ false
  IsUnderway-tready {s = s} h = disabled-tready s.dut h.en_is

  -- A write of CTRL without START and CLEAR only sets EN, wherever the tile is.
  pub write-IsUnderway :
      (n value : ℕ) {en : Bool} {acc : ℤ} {skip m : ℕ} {s : Sim source}
      → test_bit value 0 ≡ false
      → test_bit value 1 ≡ false
      → IsUnderway en acc skip m s
      → let t = written source (write_cycle source 4 value s) in
        (raw_write_dword source (suc n) 4 value s ≡ (ok tt, t))
        × IsUnderway (test_bit value 2) acc skip m t
        × (t.dut.read.rvalid_q ≡ false)
  write-IsUnderway n value {en} {s = s} starts clears h =
      let h' = IsUnderway-edge h in
      let (ends, idle, _, _, _, _) = raw_write_dword-ends source n 4 value s h.idle in
      let (j, b, q) = rising_edge-IsIdle source s h.idle in
      let (start, clear, now, free) = written-ctrl source value (rising_edge source s) j b q in
      let presented = write_cycle source 4 value s in
      let next =
        Ahead-edge_either en {s = presented} (h'.idle.running, h'.no_clear) h'.en_is
          (start ∙ starts) (drive-Ahead source lag supply (present_write 4 value) h'.ahead) in
      (
        ends,
        record {
          idle = idle;
          no_clear = clear ∙ clears;
          en_is = now;
          ahead = drive-Ahead source lag supply (withdraw source settled) next;
        },
        free,
      )

  -- with EN set again, and no response pending
  pub underway-IsPolling :
      {acc : ℤ} {skip m : ℕ} {s : Sim source}
      → IsUnderway true acc skip m s
      → s.dut.read.rvalid_q ≡ false
      → IsPolling source lag supply acc skip m s
  underway-IsPolling h free = record {
    idle = h.idle;
    free = free;
    calm = record {
      no_write = (h.idle.running, h.idle.no_aw, h.idle.no_w, h.idle.aw_free, h.idle.w_free);
      no_clear = h.no_clear;
      enabled = h.en_is;
    };
    ahead = h.ahead;
  }
