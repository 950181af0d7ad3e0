-- ===== src/Bench/SparseSeam/Raw/Split.antt =====
-- test_clear_mid_tile of tb/sparse_cnn_axi/tb_sparse_cnn_axi.py, on the wrapper.
use mathlib.Core.Path.{subst}
use zynq_rtl_flow.Base.{
  ℕ, suc, ◌+◌, ◌≤◌, ◌<◌, List, [], ◌∷◌, map, length, All, Bool, true, false, ◌≡◌, refl, sym, ap,
  ◌∙◌, arith, ok,
}
use zynq_rtl_flow.Base.Int.{ℤ}
use zynq_rtl_flow.Golden.Rng.{Rng}
use zynq_rtl_flow.Golden.SparseMac.{zip}
use zynq_rtl_flow.Golden.Draws.{gen_pairs}
use zynq_rtl_flow.Golden.Draws.Range.{IsPair, gen_pairs_fits}
use zynq_rtl_flow.Effects.{M, ◌>>=◌, modify, gets}
use zynq_rtl_flow.Effects.Laws.{bind-ok}
use zynq_rtl_flow.Rtl.Wrapper.{tready}
use zynq_rtl_flow.Bench.SparseSeam.{reg_ctrl, pack_pair, start, send}
use zynq_rtl_flow.Bench.SparseSeam.Clocked.{wait_total, test_clear_mid_tile}
use zynq_rtl_flow.Bench.SparseSeam.Raw.{StreamSource, Sim, rising_edge, raw_write_dword}
use zynq_rtl_flow.Bench.SparseSeam.Raw.Cases.{bring_up}
use zynq_rtl_flow.Bench.SparseSeam.Raw.Steps.{rising_edge-IsIdle}
use zynq_rtl_flow.Bench.SparseSeam.Raw.Writes.{write_cycle, written}
use zynq_rtl_flow.Bench.SparseSeam.Raw.Registers.{written-ctrl}
use zynq_rtl_flow.Bench.SparseSeam.Raw.Supply.{Supply}
use zynq_rtl_flow.Bench.SparseSeam.Raw.Check.{
  IsReady, started_from, started-state, queued, submitted-IsPolling,
}
use zynq_rtl_flow.Bench.SparseSeam.Raw.Pass.{first_of, length-pack}
use zynq_rtl_flow.Bench.SparseSeam.Raw.Tiles.{bring_up-IsReady}
use zynq_rtl_flow.Bench.SparseSeam.Raw.Watched.{
  Controls, CountedSource, counted, counted_edge, start_counter, watched, counted-Supply,
}
use zynq_rtl_flow.Bench.SparseSeam.Raw.Underway.{IsIdle-calm}
use zynq_rtl_flow.Bench.SparseSeam.Raw.MidTile.{total-step, begins}
use zynq_rtl_flow.Bench.SparseSeam.Raw.Counting.{IsCounting, wait_total-ends}
use zynq_rtl_flow.Bench.SparseSeam.Raw.Paused.{IsPaused-edge, pause-IsPaused}
use zynq_rtl_flow.Bench.SparseSeam.Raw.Restart.{restarts, restarts-passes}

module _ (source : StreamSource) (lag : ℕ) (supply : Supply source lag)
    (controls : Controls source) where
  abbrev src : StreamSource
  src = counted source

  abbrev sup : Supply src lag
  sup = counted-Supply source lag supply

  -- a counter that has just been started
  start_counter-IsReady :
      (s : Sim src) → IsReady src lag sup s → IsReady src lag sup (start_counter source s)
  unfolding start_counter
  start_counter-IsReady s r = record {
    idle = record {
      running = r.idle.running;
      no_aw = r.idle.no_aw;
      no_w = r.idle.no_w;
      no_ar = r.idle.no_ar;
      takes_b = r.idle.takes_b;
      takes_r = r.idle.takes_r;
      aw_free = r.idle.aw_free;
      w_free = r.idle.w_free;
    };
    no_tile = r.no_tile;
    no_start = r.no_start;
    no_clear = r.no_clear;
    enabled = r.enabled;
    slack = r.slack;
    empty = r.empty;
  }

  -- a source that holds nothing adds nothing to the count
  empty-total :
      (d : ℕ) (ready : Bool) (c : CountedSource source)
      → c.is_started ≡ true
      → supply.Holds d [] c.inner
      → (counted_edge source ready c).total ≡ c.total
  empty-total d ready c on h =
      total-step source lag supply [] c ready false on ((supply.rests d c.inner h).0)

  started-total :
      (s : Sim src)
      → s.src.is_started ≡ true
      → IsReady src lag sup s
      → (started_from src lag sup s).src.total ≡ s.src.total
  unfolding rising_edge
  started-total s on r =
      let s1 = rising_edge src s in
      empty-total r.slack (tready s1.dut) s1.src on
        ((supply.rests r.slack s.src.inner r.empty).1 (tready s.dut))
      ∙ empty-total r.slack (tready s.dut) s.src on r.empty

  started-on :
      (s : Sim src) → s.src.is_started ≡ true → (started_from src lag sup s).src.is_started ≡ true
  unfolding rising_edge
  started-on s on = on

  -- A tile that was started and queued behind a new counter is counted.
  submitted-IsCounting :
      (n word : ℕ) (words : List ℕ) (s : Sim src)
      → s.src.is_started ≡ true
      → s.src.total ≡ 0
      → IsReady src lag sup s
      → let t = started_from src lag sup s in
        (raw_write_dword src (suc (suc (suc n))) 4 5 s ≡ (ok tt, t))
        × IsCounting source lag supply
            (word ∷ words)
            0
            (lag + 2)
            (queued src lag sup (word ∷ words) t)
  submitted-IsCounting n word words s on none r =
      let t = started_from src lag sup s in
      let (ends, polling) = submitted-IsPolling src lag sup n word words s r in
      let (j, b, q) = rising_edge-IsIdle src s r.idle in
      let (start, _, _, _) = written-ctrl src 5 (rising_edge src s) j b q in
      let (state, empty) = started-state src lag sup s r in
      (
        ends,
        record {
          idle = polling.idle;
          no_clear = polling.calm.no_clear;
          enabled = polling.calm.enabled;
          mid =
              begins (lag + 2) lag word words (queued src lag sup (word ∷ words) t) state start
                (record {
                  is_on = started-on s on;
                  total_is = started-total s on r ∙ none;
                  left = refl;
                  holds = supply.queues r.slack (word ∷ words) t.src.inner empty;
                })
                (omega arith);
        },
      )

  -- the test behind its queue
  abbrev splits : ℕ → ℕ → ℕ → List ℤ → List ℤ → M (Sim src) (Unit {0})
  splits n rounds bound weights acts =
      let clocked = watched source controls (suc (suc (suc n))) in
      wait_total clocked rounds bound >>= λ _.
      raw_write_dword src (suc (suc (suc n))) reg_ctrl 0 >>= λ _. modify (rising_edge src) >>= λ _.
      gets (λ s. s.src.total) >>= λ split. restarts source lag supply controls n split weights acts

  splits-pass :
      (n rounds bound : ℕ) (weights acts : List ℤ) (s : Sim src)
      → All IsPair (zip weights acts)
      → 1 ≤ bound
      → bound + 2 < length (zip weights acts)
      → lag + 2 + length (zip weights acts) ≤ 19995
      → bound + (lag + 2) ≤ rounds
      → IsCounting source lag supply (map pack_pair (zip weights acts)) 0 (lag + 2) s
      → (t : Sim src) × (splits n rounds bound weights acts s ≡ (ok tt, t)) × IsReady src lag sup t
  splits-pass n rounds bound weights acts s fits some far enough loops h =
      let clocked = watched source controls (suc (suc (suc n))) in
      let frame = map pack_pair (zip weights acts) in
      let long = length-pack (zip weights acts) in
      let (s1, m1, waits, less, h1) =
        wait_total-ends source lag supply frame controls (suc (suc (suc n))) rounds bound s
          (omega (arith, far, long)) (omega arith) (omega (arith, loops)) h in
      let (stops, idle, clear, k, m2, _, less', paused) =
        pause-IsPaused source lag supply frame (suc (suc n)) s1 some (omega (arith, far, long))
          h1 in
      let s2 = written src (write_cycle src 4 0 s1) in
      let s3 = rising_edge src s2 in
      let (_, _, en) = IsIdle-calm src lag sup s2 idle in
      let paused' = IsPaused-edge source lag supply frame idle.running (en ∙ paused.off) paused in
      let (t, passes, ready) =
        restarts-passes source lag supply controls n m2 weights acts s3 fits
          (omega (arith, enough, less, less')) (rising_edge-IsIdle src s2 idle).0 paused' in
      let behind = λ (split : ℕ). restarts source lag supply controls n split weights acts in
      let stop = raw_write_dword src (suc (suc (suc n))) reg_ctrl 0 in
      let last =
        λ (_ : Unit {0}). modify (rising_edge src) >>= λ _. gets (λ v. v.src.total) >>= behind in
      (
        t,
        bind-ok (wait_total clocked rounds bound) (λ _. stop >>= last) s s1 tt waits
            ∙ (bind-ok stop last s1 s2 tt stops
                ∙ (ap (λ x. behind x s3) paused'.counts.total_is ∙ passes)),
        ready,
      )

  -- from the counter on
  abbrev clears_mid : ℕ → ℕ → ℕ → List ℤ → List ℤ → M (Sim src) (Unit {0})
  clears_mid n rounds bound weights acts =
      let clocked = watched source controls (suc (suc (suc n))) in
      modify clocked.count_beats >>= λ _. start clocked.bus >>= λ _.
      send clocked.bus weights acts >>= λ _. splits n rounds bound weights acts

  clears_mid-passes :
      (n rounds bound : ℕ) (weights acts : List ℤ) (p : ℤ × ℤ) (pairs : List (ℤ × ℤ)) (s : Sim src)
      → zip weights acts ≡ p ∷ pairs
      → All IsPair (zip weights acts)
      → 1 ≤ bound
      → bound + 2 < length (zip weights acts)
      → lag + 2 + length (zip weights acts) ≤ 19995
      → bound + (lag + 2) ≤ rounds
      → IsReady src lag sup s
      → (t : Sim src) × (clears_mid n rounds bound weights acts s ≡ (ok tt, t))
        × IsReady src lag sup t
  unfolding send start start_counter
  clears_mid-passes n rounds bound weights acts p pairs s split fits some far enough loops r =
      let clocked = watched source controls (suc (suc (suc n))) in
      let word = pack_pair p in
      let words = map pack_pair pairs in
      let frame = ap (map pack_pair) split in
      let s1 = start_counter source s in
      let s2 = started_from src lag sup s1 in
      let s3 = queued src lag sup (word ∷ words) s2 in
      let (begin, counting) =
        submitted-IsCounting n word words s1 refl refl (start_counter-IsReady s r) in
      let (t, passes, ready) =
        splits-pass n rounds bound weights acts s3 fits some far enough loops
          (subst (λ f. IsCounting source lag supply f 0 (lag + 2) s3) (sym frame) counting) in
      let last = λ (_ : Unit {0}). splits n rounds bound weights acts in
      (
        t,
        bind-ok (start clocked.bus) (λ _. send clocked.bus weights acts >>= last) s1 s2 tt begin
            ∙ (bind-ok (send clocked.bus weights acts) last s2 s3 tt
                  (ap (λ x. (ok tt, queued src lag sup x s2)) frame)
                ∙ passes),
        ready,
      )

  -- Whatever the simulation starts in, test_clear_mid_tile passes on the wrapper, through RawAxiLite,
  -- for any draws of the generator, a source that stalls at most 19800 cycles in a frame and holds
  -- nothing at first, and a wait for 24 beats of as many edges as those and the stalls need and two
  -- more: with EN low CLEAR leaves both results 0 and no beat is consumed, and the tile completes with
  -- the golden results of the pairs that were left at the split.
  pub test_clear_mid_tile-passes :
      (n : ℕ) (rng : Rng) (rounds d : ℕ) (s : Sim src)
      → lag ≤ 19800
      → lag + 26 ≤ rounds
      → supply.Holds d [] s.src.inner
      → (t : Sim src) × (test_clear_mid_tile
            (watched source controls (suc (suc (suc n))))
            rng
            rounds
            (bring_up src s)
          ≡ (ok tt, t))
        × IsReady src lag sup t
  unfolding test_clear_mid_tile
  test_clear_mid_tile-passes n rng rounds d s few loops h =
      let tile = gen_pairs rng 96 30 50 in
      let (fits, length_is) = gen_pairs_fits rng 96 30 50 in
      let (p, pairs, split) = first_of (zip tile.0 tile.1) (omega (arith, length_is)) in
      clears_mid-passes n rounds 24 tile.0 tile.1 p pairs (bring_up src s) split fits (omega arith)
        (omega (arith, length_is)) (omega (arith, length_is, few)) (omega (arith, loops))
        (bring_up-IsReady src lag sup d s h)
