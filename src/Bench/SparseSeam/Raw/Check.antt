-- ===== src/Bench/SparseSeam/Raw/Check.antt =====
-- A tile that is submitted to the wrapper between two tiles, and the accelerator behind it.
use zynq_rtl_flow.Base.{
  ℕ, suc, ◌+◌, ◌%◌, ◌^◌, List, [], ◌∷◌, map, length, true, false, ◌≡◌, refl, arith, ok,
}
use zynq_rtl_flow.Base.Int.{ℤ, pos}
use zynq_rtl_flow.Words.{low_bits}
use zynq_rtl_flow.Golden.SparseMac.{golden_from}
use zynq_rtl_flow.Rtl.Wrapper.{s_idle, tready}
use zynq_rtl_flow.Rtl.Wrapper.Edges.{operands}
use zynq_rtl_flow.Bench.SparseSeam.{start}
use zynq_rtl_flow.Bench.SparseSeam.Raw.{StreamSource, Sim, ports, rising_edge, raw_write_dword}
use zynq_rtl_flow.Bench.SparseSeam.Raw.Steps.{IsIdle, rising_edge-IsIdle}
use zynq_rtl_flow.Bench.SparseSeam.Raw.Writes.{write_cycle, written, raw_write_dword-ends}
use zynq_rtl_flow.Bench.SparseSeam.Raw.Registers.{written-ctrl}
use zynq_rtl_flow.Bench.SparseSeam.Raw.Supply.{
  Supply, NoWrite, IsCalm, IsCalm-edge, rest-edge, Ahead, starting, clearing, running, latching,
  complete,
}
use zynq_rtl_flow.Bench.SparseSeam.Raw.Reads.{IsPolling}

module _ (source : StreamSource) (lag : ℕ) (supply : Supply source lag) where
  open supply use {Holds, rests, queues}

  -- Between two tiles: the master and the tile machine are idle, EN is set, and the source holds
  -- nothing.
  pub record IsReady (s : Sim source) : Type 0 where
    pub idle : IsIdle source s
    pub no_tile : s.dut.state ≡ s_idle
    pub no_start : s.dut.ctrl.start_pulse ≡ false
    pub no_clear : s.dut.ctrl.clear_pulse ≡ false
    pub enabled : s.dut.ctrl.en_reg ≡ true
    pub slack : ℕ
    pub empty : Holds slack [] s.src

  pub IsIdle-NoWrite : (s : Sim source) → IsIdle source s → NoWrite (ports source s) s.dut
  IsIdle-NoWrite s i = (i.running, i.no_aw, i.no_w, i.aw_free, i.w_free)

  -- a completed tile leaves its results, and the accelerator ready
  pub complete-IsReady :
      {acc : ℤ} {skip : ℕ} {s : Sim source}
      → IsIdle source s
      → IsCalm source lag supply s
      → Ahead source lag supply acc skip 0 s
      → IsReady s × (s.dut.acc_q ≡ low_bits 32 acc) × (s.dut.skip_q ≡ skip % 2 ^ 16)
  complete-IsReady i c (starting m d word words s a b h g le) = absurd (omega (arith, le))
  complete-IsReady i c (clearing m d word words s a b h g le) = absurd (omega (arith, le))
  complete-IsReady i c (running m d word words s a b h partial skips held g le) =
      absurd (omega (arith, le))
  complete-IsReady i c (latching m d s a b h held le) = absurd (omega (arith, le))
  complete-IsReady i c (complete m d s state start done h acc_is skip_is) = (
    record {
      idle = i;
      no_tile = state;
      no_start = start;
      no_clear = c.no_clear;
      enabled = c.enabled;
      slack = d;
      empty = h;
    },
    acc_is,
    skip_is,
  )

  pub ready-IsCalm : (s : Sim source) → IsReady s → IsCalm source lag supply s
  ready-IsCalm s r = record {
    no_write = IsIdle-NoWrite s r.idle;
    no_clear = r.no_clear;
    enabled = r.enabled;
  }

  -- START is written, and the tile machine has yet to take it
  abbrev pub started_from : Sim source → Sim source
  started_from s = written source (write_cycle source 4 5 s)

  pub started-state :
      (s : Sim source) (r : IsReady s)
      → let t = started_from s in (t.dut.state ≡ s_idle) × Holds r.slack [] t.src
  unfolding rising_edge
  started-state s r =
      let calm = ready-IsCalm s r in
      let (still, no_start) = IsCalm-edge source lag supply s calm in
      let s1 = rising_edge source s in
      let (idle, _, _, _) =
        rest-edge (ports source s) s.dut r.idle.running r.no_tile r.no_start r.no_clear in
      let (idle', _, _, _) =
        rest-edge (ports source (write_cycle source 4 5 s)) s1.dut r.idle.running idle no_start
          still.no_clear in
      (
        idle',
        (rests r.slack s1.src ((rests r.slack s.src r.empty).1 (tready s.dut))).1 (tready s1.dut),
      )

  -- a frame in the queue of the source
  abbrev pub queued : List ℕ → Sim source → Sim source
  queued words s = record s { src = source.queue words s.src }

  pub queued-IsIdle :
      (words : List ℕ) (s : Sim source) → IsIdle source s → IsIdle source (queued words s)
  queued-IsIdle words s i = record {
    running = i.running;
    no_aw = i.no_aw;
    no_w = i.no_w;
    no_ar = i.no_ar;
    takes_b = i.takes_b;
    takes_r = i.takes_r;
    aw_free = i.aw_free;
    w_free = i.w_free;
  }

  -- A tile that was started and queued is on its way.
  pub submitted-IsPolling :
      (n word : ℕ) (words : List ℕ) (s : Sim source)
      → IsReady s
      → let g = golden_from (pos 0) 0 (map operands (word ∷ words)) in
        let t = started_from s in
        (raw_write_dword source (suc (suc (suc n))) 4 5 s ≡ (ok tt, t))
        × IsPolling source lag supply g.0 g.1 (lag + length words + 4) (queued (word ∷ words) t)
  submitted-IsPolling n word words s r =
      let g = golden_from (pos 0) 0 (map operands (word ∷ words)) in
      let t = started_from s in
      let (ends, idle, _, _, _, _) = raw_write_dword-ends source (suc (suc n)) 4 5 s r.idle in
      let (j, b, q) = rising_edge-IsIdle source s r.idle in
      let (start, clear, en, free) = written-ctrl source 5 (rising_edge source s) j b q in
      let (state, empty) = started-state s r in
      (
        ends,
        record {
          idle = queued-IsIdle (word ∷ words) t idle;
          free = free;
          calm = record { no_write = IsIdle-NoWrite t idle; no_clear = clear; enabled = en };
          ahead =
              starting (lag + length words + 4) lag word words (queued (word ∷ words) t) state start
                (queues r.slack (word ∷ words) t.src empty) refl (omega arith);
        },
      )
