-- ===== src/Bench/SparseSeam/Raw/Loaded.antt =====
-- A tile that is queued before its START, on the wrapper: no beat is taken until the START.
use zynq_rtl_flow.Base.{
  ℕ, suc, ◌+◌, ◌≤◌, List, ◌∷◌, map, length, false, true, ◌≡◌, inl, refl, arith, ok,
}
use zynq_rtl_flow.Base.Int.{pos}
use zynq_rtl_flow.Golden.SparseMac.{golden_from}
use zynq_rtl_flow.Rtl.Wrapper.{s_idle, tready}
use zynq_rtl_flow.Rtl.Wrapper.Edges.{operands}
use zynq_rtl_flow.Bench.SparseSeam.{start}
use zynq_rtl_flow.Bench.SparseSeam.Raw.{StreamSource, Sim, ports, rising_edge, raw_write_dword}
use zynq_rtl_flow.Bench.SparseSeam.Raw.Steps.{IsIdle, rising_edge-IsIdle}
use zynq_rtl_flow.Bench.SparseSeam.Raw.Writes.{write_cycle, raw_write_dword-ends}
use zynq_rtl_flow.Bench.SparseSeam.Raw.Registers.{written-ctrl}
use zynq_rtl_flow.Bench.SparseSeam.Raw.Supply.{Supply, IsCalm, IsCalm-edge, rest-edge, starting}
use zynq_rtl_flow.Bench.SparseSeam.Raw.Progress.{not_run-tready, waits}
use zynq_rtl_flow.Bench.SparseSeam.Raw.Reads.{IsPolling}
use zynq_rtl_flow.Bench.SparseSeam.Raw.Check.{IsReady, started_from, queued, queued-IsIdle}

module _ (source : StreamSource) (lag : ℕ) (supply : Supply source lag) where
  open supply use {Holds, queues}

  -- Between two tiles, with the words of the next one in the source.
  pub record IsLoaded (word : ℕ) (words : List ℕ) (s : Sim source) : Type 0 where
    pub idle : IsIdle source s
    pub no_tile : s.dut.state ≡ s_idle
    pub no_start : s.dut.ctrl.start_pulse ≡ false
    pub no_clear : s.dut.ctrl.clear_pulse ≡ false
    pub enabled : s.dut.ctrl.en_reg ≡ true
    pub slack : ℕ
    pub within : slack ≤ lag
    pub loaded : Holds slack (word ∷ words) s.src

  pub queued-IsLoaded :
      (word : ℕ) (words : List ℕ) (s : Sim source)
      → IsReady source lag supply s
      → IsLoaded word words (queued source lag supply (word ∷ words) s)
  queued-IsLoaded word words s r = record {
    idle = queued-IsIdle source lag supply (word ∷ words) s r.idle;
    no_tile = r.no_tile;
    no_start = r.no_start;
    no_clear = r.no_clear;
    enabled = r.enabled;
    slack = lag;
    within = omega arith;
    loaded = queues r.slack (word ∷ words) s.src r.empty;
  }

  IsLoaded-IsCalm :
      {word : ℕ} {words : List ℕ} {s : Sim source}
      → IsLoaded word words s
      → IsCalm source lag supply s
  IsLoaded-IsCalm r = record {
    no_write = (r.idle.running, r.idle.no_aw, r.idle.no_w, r.idle.aw_free, r.idle.w_free);
    no_clear = r.no_clear;
    enabled = r.enabled;
  }

  pub IsLoaded-tready :
      {word : ℕ} {words : List ℕ} {s : Sim source} → IsLoaded word words s → tready s.dut ≡ false
  IsLoaded-tready {s = s} r = not_run-tready s.dut (inl r.no_tile)

  -- the words stay in the source over an edge
  pub IsLoaded-edge :
      {word : ℕ} {words : List ℕ} {s : Sim source}
      → IsLoaded word words s
      → IsLoaded word words (rising_edge source s)
  unfolding rising_edge
  IsLoaded-edge {word} {words} {s} r =
      let (calm, no_start) = IsCalm-edge source lag supply s (IsLoaded-IsCalm r) in
      let (idle, _, _, _) =
        rest-edge (ports source s) s.dut r.idle.running r.no_tile r.no_start r.no_clear in
      let (e, less, kept) =
        waits source lag supply r.slack word words s r.loaded (IsLoaded-tready r) in
      record {
        idle = (rising_edge-IsIdle source s r.idle).0;
        no_tile = idle;
        no_start = no_start;
        no_clear = calm.no_clear;
        enabled = calm.enabled;
        slack = e;
        within = omega (arith, less, r.within);
        loaded = kept;
      }

  -- Behind its START the tile is on its way.
  pub started-IsPolling :
      (n word : ℕ) (words : List ℕ) (s : Sim source)
      → IsLoaded word words s
      → let g = golden_from (pos 0) 0 (map operands (word ∷ words)) in
        let t = started_from source lag supply s in
        (raw_write_dword source (suc (suc (suc n))) 4 5 s ≡ (ok tt, t))
        × IsPolling source lag supply g.0 g.1 (lag + length words + 4) t
  unfolding rising_edge
  started-IsPolling n word words s r =
      let t = started_from source lag supply s in
      let r' = IsLoaded-edge r in
      let presented = write_cycle source 4 5 s in
      let (ends, idle, _, _, _, _) = raw_write_dword-ends source (suc (suc n)) 4 5 s r.idle in
      let (j, b, q) = rising_edge-IsIdle source s r.idle in
      let (start, clear, en, free) = written-ctrl source 5 (rising_edge source s) j b q in
      let (state, _, _, _) =
        rest-edge (ports source presented) presented.dut r'.idle.running r'.no_tile r'.no_start
          r'.no_clear in
      let (e, less, kept) =
        waits source lag supply r'.slack word words presented r'.loaded (IsLoaded-tready r') in
      (
        ends,
        record {
          idle = idle;
          free = free;
          calm = record {
            no_write = (idle.running, idle.no_aw, idle.no_w, idle.aw_free, idle.w_free);
            no_clear = clear;
            enabled = en;
          };
          ahead =
              starting (lag + length words + 4) e word words t state start kept refl
                (omega (arith, less, r'.within));
        },
      )
