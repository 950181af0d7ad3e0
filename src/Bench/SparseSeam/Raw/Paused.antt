-- ===== src/Bench/SparseSeam/Raw/Paused.antt =====
-- A tile that EN pauses in the middle, and an explicit clear of it, on the wrapper.
use mathlib.Core.Path.{subst}
use zynq_rtl_flow.Base.{ℕ, suc, ◌+◌, ◌≤◌, ◌<◌, List, length, true, false, ◌≡◌, sym, ◌∙◌, arith, ok}
use zynq_rtl_flow.Base.Int.{pos}
use zynq_rtl_flow.Words.{low_bits}
use zynq_rtl_flow.Rtl.Pe
use zynq_rtl_flow.Rtl.AxiLite.{LiteMaster}
use zynq_rtl_flow.Rtl.Wrapper.{s_run, Ports, Wrapper, aclk_edge}
use zynq_rtl_flow.Rtl.Wrapper.Edges.{PeHolds, stall-PeHolds}
use zynq_rtl_flow.Bench.SparseSeam.Raw.{
  StreamSource, Sim, ports, drive, rising_edge, present_write, withdraw, raw_write_dword,
}
use zynq_rtl_flow.Bench.SparseSeam.Raw.Steps.{settled, IsIdle, rising_edge-IsIdle}
use zynq_rtl_flow.Bench.SparseSeam.Raw.Writes.{write_cycle, written, raw_write_dword-ends}
use zynq_rtl_flow.Bench.SparseSeam.Raw.Registers.{written-ctrl}
use zynq_rtl_flow.Bench.SparseSeam.Raw.Supply.{Supply, NoWrite, calm-ctrl}
use zynq_rtl_flow.Bench.SparseSeam.Raw.Progress.{disabled-tready, disabled-takes}
use zynq_rtl_flow.Bench.SparseSeam.Raw.Underway.{IsIdle-calm}
use zynq_rtl_flow.Bench.SparseSeam.Raw.Watched.{counted, counted_edge, counted-Supply}
use zynq_rtl_flow.Bench.SparseSeam.Raw.MidTile.{Counts, shut-Counts, Mid, begins, clears, runs}
use zynq_rtl_flow.Bench.SparseSeam.Raw.Counting.{IsCounting, IsCounting-edge, drive-Mid, Mid-Onward}

-- while EN is low the tile machine stays
off-state :
    (p : Ports) (w : Wrapper)
    → p.aresetn ≡ true
    → w.ctrl.en_reg ≡ false
    → w.state ≡ s_run
    → ((aclk_edge p w).state ≡ s_run) × ((aclk_edge p w).done_q ≡ w.done_q)
unfolding aclk_edge
off-state p w r off run = (ground arith, ground arith)

-- an explicit clear while EN is low
off-clear :
    (p : Ports) (w : Wrapper)
    → p.aresetn ≡ true
    → w.ctrl.en_reg ≡ false
    → w.ctrl.clear_pulse ≡ true
    → let v = aclk_edge p w in PeHolds v.pe (pos 0) 0 × (v.acc_q ≡ 0) × (v.skip_q ≡ 0)
unfolding aclk_edge Pe.clock low_bits
off-clear p w r off clear = (ground arith, ground arith, ground arith)

-- what a pause without a clear keeps
off-keeps :
    (p : Ports) (w : Wrapper)
    → p.aresetn ≡ true
    → w.ctrl.en_reg ≡ false
    → w.ctrl.clear_pulse ≡ false
    → w.state ≡ s_run
    → let v = aclk_edge p w in (v.acc_q ≡ w.acc_q) × (v.skip_q ≡ w.skip_q)
unfolding aclk_edge
off-keeps p w r off clear run = (ground arith, ground arith)

module _ (source : StreamSource) (lag : ℕ) (supply : Supply source lag) (frame : List ℕ) where
  abbrev src : StreamSource
  src = counted source

  -- A tile in its middle, with EN low, so many beats counted, and the source able to stall for at most
  -- so many cycles more.
  pub record IsPaused (total m : ℕ) (s : Sim src) : Type 0 where
    pub off : s.dut.ctrl.en_reg ≡ false
    pub still_runs : s.dut.state ≡ s_run
    pub low : s.dut.done_q ≡ false
    pub slack : ℕ
    pub within : slack ≤ m
    pub word : ℕ
    pub words : List ℕ
    pub counts : Counts source lag supply frame slack total word words s.src

  -- an edge that leaves EN low counts nothing
  pub IsPaused-edge :
      {total m : ℕ} {s : Sim src}
      → s.aresetn ≡ true
      → (rising_edge src s).dut.ctrl.en_reg ≡ false
      → IsPaused total m s
      → IsPaused total m (rising_edge src s)
  unfolding rising_edge
  IsPaused-edge {total} {m} {s} r still h =
      let (run, low) = off-state (ports src s) s.dut r h.off h.still_runs in
      let (e, less, kept) =
        shut-Counts source lag supply frame h.slack total h.word h.words s.src h.counts in
      record {
        off = still;
        still_runs = run;
        low = low ∙ h.low;
        slack = e;
        within = omega (arith, less, h.within);
        word = h.word;
        words = h.words;
        counts =
            subst
              (λ b.
                Counts source lag supply frame e total h.word h.words (counted_edge source b s.src))
              (sym (disabled-tready s.dut h.off)) kept;
      }

  pub drive-IsPaused :
      (f : LiteMaster → LiteMaster) {total m : ℕ} {s : Sim src}
      → IsPaused total m s
      → IsPaused total m (drive src f s)
  drive-IsPaused f h = record {
    off = h.off;
    still_runs = h.still_runs;
    low = h.low;
    slack = h.slack;
    within = h.within;
    word = h.word;
    words = h.words;
    counts = h.counts;
  }

  -- a tile that has counted a beat runs
  Mid-IsPaused :
      {total m : ℕ} {s : Sim src}
      → 1 ≤ total
      → s.dut.ctrl.en_reg ≡ false
      → Mid source lag supply frame total m s
      → IsPaused total m s
  Mid-IsPaused some off (begins m d word words s a b c le) = absurd (omega (arith, some))
  Mid-IsPaused some off (clears m d word words s a b c le) = absurd (omega (arith, some))
  Mid-IsPaused some off (runs total m d word words s run low c le) = record {
    off = off;
    still_runs = run;
    low = low;
    slack = d;
    within = le;
    word = word;
    words = words;
    counts = c;
  }

  -- The write that clears EN lets at most two beats more pass.
  pub pause-IsPaused :
      (n : ℕ) {total m : ℕ} (s : Sim src)
      → 1 ≤ total
      → total + 2 < length frame
      → IsCounting source lag supply frame total m s
      → let t = written src (write_cycle src 4 0 s) in
        (raw_write_dword src (suc n) 4 0 s ≡ (ok tt, t))
        × IsIdle src t
        × (t.dut.ctrl.clear_pulse ≡ false)
        × (k : ℕ) × (j : ℕ) × (k ≤ total + 2)
        × (j ≤ m)
        × IsPaused k j t
  pause-IsPaused n {total} {m} s some far h =
      let presented = write_cycle src 4 0 s in
      let t = written src presented in
      let (ends, idle, _, _, _, _) = raw_write_dword-ends src n 4 0 s h.idle in
      let (j, b, q) = rising_edge-IsIdle src s h.idle in
      let (_, clear, off, _) = written-ctrl src 0 (rising_edge src s) j b q in
      let (k1, m1, h1, up1, one1, same1) =
        IsCounting-edge source lag supply frame (omega (arith, far)) h in
      let (k2, m2, mid, up2, one2, same2) =
        Mid-Onward source lag supply frame {s = presented} j.running h1.no_clear h1.enabled
          (omega (arith, far, one1))
          (drive-Mid source lag supply frame (present_write 4 0) h1.mid) in
      (
        ends,
        idle,
        clear,
        k2,
        m2,
        omega (arith, one1, one2),
        omega (arith, up1, up2, one1, one2, same1, same2),
        Mid-IsPaused (omega (arith, some, up1, up2)) off
            (drive-Mid source lag supply frame (withdraw src settled) mid),
      )

  -- CLEAR, written while EN is low, and the edge that takes it: the tile goes on from nothing.
  pub record IsCleared (total m : ℕ) (s : Sim src) : Type 0 where
    pub paused : IsPaused total m s
    pub no_clear : s.dut.ctrl.clear_pulse ≡ false
    pub holds_none : PeHolds s.dut.pe (pos 0) 0
    pub no_acc : s.dut.acc_q ≡ 0
    pub no_skip : s.dut.skip_q ≡ 0

  cleared-results :
      (t : Sim src)
      → t.aresetn ≡ true
      → t.dut.ctrl.en_reg ≡ false
      → t.dut.ctrl.clear_pulse ≡ true
      → let v = (rising_edge src t).dut in PeHolds v.pe (pos 0) 0 × (v.acc_q ≡ 0) × (v.skip_q ≡ 0)
  unfolding rising_edge
  cleared-results t r off clear = off-clear (ports src t) t.dut r off clear

  pub clear-IsCleared :
      (n : ℕ) {total m : ℕ} (s : Sim src)
      → IsIdle src s
      → IsPaused total m s
      → let t = written src (write_cycle src 4 2 s) in
        (raw_write_dword src (suc n) 4 2 s ≡ (ok tt, t))
        × IsIdle src (rising_edge src t)
        × ((rising_edge src t).dut.read.rvalid_q ≡ false)
        × IsCleared total m (rising_edge src t)
  clear-IsCleared n {total} {m} s i h =
      let presented = write_cycle src 4 2 s in
      let t = written src presented in
      let (ends, idle, _, _, _, _) = raw_write_dword-ends src n 4 2 s i in
      let (j, b, q) = rising_edge-IsIdle src s i in
      let (_, clear, off, _) = written-ctrl src 2 (rising_edge src s) j b q in
      let (_, _, en) = IsIdle-calm src lag (counted-Supply source lag supply) s i in
      let h1 = IsPaused-edge i.running (en ∙ h.off) h in
      let h2 =
        drive-IsPaused (withdraw src settled)
          (IsPaused-edge {s = presented} j.running off (drive-IsPaused (present_write 4 2) h1)) in
      let (_, clear', en') = IsIdle-calm src lag (counted-Supply source lag supply) t idle in
      let (idle', _, free) = rising_edge-IsIdle src t idle in
      let (pe, acc, skip) = cleared-results t idle.running off clear in
      (
        ends,
        idle',
        free,
        record {
          paused = IsPaused-edge idle.running (en' ∙ off) h2;
          no_clear = clear';
          holds_none = pe;
          no_acc = acc;
          no_skip = skip;
        },
      )

  -- an edge keeps what a clear has left
  pub IsCleared-edge :
      {total m : ℕ} {s : Sim src}
      → NoWrite (ports src s) s.dut
      → IsCleared total m s
      → IsCleared total m (rising_edge src s)
  unfolding rising_edge
  IsCleared-edge {s = s} n h =
      let (_, clear, en, _, _) = calm-ctrl (ports src s) s.dut n in
      let p = ports src s in
      let (acc, skip) = off-keeps p s.dut n.0 h.paused.off h.no_clear h.paused.still_runs in
      record {
        paused = IsPaused-edge n.0 (en ∙ h.paused.off) h.paused;
        no_clear = clear;
        holds_none =
            stall-PeHolds p s.dut (pos 0) 0 (n.0, h.no_clear) h.paused.still_runs
              (disabled-takes p s.dut h.paused.off) h.holds_none;
        no_acc = acc ∙ h.no_acc;
        no_skip = skip ∙ h.no_skip;
      }
