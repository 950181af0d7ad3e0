-- ===== src/Bench/SparseSeam/Raw/Advance.antt =====
-- Every edge brings the tile one edge nearer to its end, whatever the source does meanwhile.
use zynq_rtl_flow.Base.{
  ℕ, ◌+◌, ◌-◌, ◌≤◌, List, ◌∷◌, map, length, true, false, ◌≡◌, inl, inr, ◌∙◌, arith,
}
use zynq_rtl_flow.Base.Int.{ℤ, pos}
use zynq_rtl_flow.Golden.SparseMac.{golden_from}
use zynq_rtl_flow.Rtl.Wrapper.{s_run, tready}
use zynq_rtl_flow.Rtl.Wrapper.Edges.{operands, PeHolds, Quiet, start-edge, clear-edge, latch-edge}
use zynq_rtl_flow.Bench.SparseSeam.Raw.{StreamSource, Sim, ports, rising_edge}
use zynq_rtl_flow.Bench.SparseSeam.Raw.Supply.{
  Supply, clear-done, rest-edge, IsCalm, IsCalm-edge, Ahead, starting, clearing, running, latching,
  complete,
}
use zynq_rtl_flow.Bench.SparseSeam.Raw.Progress.{not_run-tready, waits, running-Next, withheld-Next}

module _ (source : StreamSource) (lag : ℕ) (supply : Supply source lag) where
  open supply use {Holds, rests}

  -- what becomes of a running tile over an edge, with so many edges to go behind it
  abbrev Runs : ℤ → ℕ → ℕ → ℕ → Sim source → Type 0
  Runs acc skip m k s =
      (d word : ℕ) (words : List ℕ)
      → s.dut.state ≡ s_run
      → s.dut.done_q ≡ false
      → Holds d (word ∷ words) s.src
      → (partial : ℤ) (skips : ℕ) → PeHolds s.dut.pe partial skips
      → golden_from partial skips (map operands (word ∷ words)) ≡ (acc, skip)
      → d + length words + 2 ≤ m
      → Ahead source lag supply acc skip k (rising_edge source s)

  -- the edges of every other state, which need no beat
  Ahead-edge_by :
      {acc : ℤ} {skip m : ℕ} {s : Sim source} (k : ℕ)
      → m - 1 ≤ k
      → Quiet (ports source s) s.dut
      → (rising_edge source s).dut.ctrl.start_pulse ≡ false
      → Runs acc skip m k s
      → Ahead source lag supply acc skip m s
      → Ahead source lag supply acc skip k (rising_edge source s)
  unfolding rising_edge
  Ahead-edge_by k more q no_start runs (starting m d word words s idle start h g le) =
      let (e, less, kept) =
        waits source lag supply d word words s h (not_run-tready s.dut (inl idle)) in
      let (clears, low) = start-edge (ports source s) s.dut q.0 idle start in
      clearing k e word words (rising_edge source s) clears low kept g (omega arith)
  Ahead-edge_by k more q no_start runs (clearing m d word words s clears low h g le) =
      let (e, less, kept) =
        waits source lag supply d word words s h (not_run-tready s.dut (inr (inl clears))) in
      let (to_run, cleared) = clear-edge (ports source s) s.dut q.0 clears in
      running k e word words (rising_edge source s) to_run
        (clear-done (ports source s) s.dut q.0 clears ∙ low) kept (pos 0) 0 cleared g (omega arith)
  Ahead-edge_by k more q no_start runs
        (running m d word words s run low h partial skips held g le) =
      runs d word words run low h partial skips held g le
  Ahead-edge_by k more q no_start runs (latching m d s latch low h held le) =
      let p = ports source s in
      let (idle, done, acc_is, skip_is) = latch-edge p s.dut q latch in
      complete k d (rising_edge source s) idle no_start done ((rests d s.src h).1 (tready s.dut))
        (acc_is ∙ held.acc_is) (skip_is ∙ held.skip_is)
  Ahead-edge_by k more q no_start runs (complete m d s idle start done h acc_is skip_is) =
      let p = ports source s in
      let (idle', done', acc', skip') = rest-edge p s.dut q.0 idle start q.1 in
      complete k d (rising_edge source s) idle' no_start (done' ∙ done)
        ((rests d s.src h).1 (tready s.dut)) (acc' ∙ acc_is) (skip' ∙ skip_is)

  -- with EN set, and no second START
  pub Ahead-edge_enabled :
      {acc : ℤ} {skip m : ℕ} {s : Sim source}
      → Quiet (ports source s) s.dut
      → s.dut.ctrl.en_reg ≡ true
      → (rising_edge source s).dut.ctrl.start_pulse ≡ false
      → Ahead source lag supply acc skip m s
      → Ahead source lag supply acc skip (m - 1) (rising_edge source s)
  Ahead-edge_enabled {acc} {skip} {m} {s} q en no_start a =
      Ahead-edge_by (m - 1) (omega arith) q no_start
        (λ d word words run low h partial skips held g le.
          running-Next source lag supply acc skip m d word words s q en run low h partial skips held
            g le)
        a

  -- With EN low a tile comes no nearer to its end, nor does it lose anything.
  pub Ahead-edge_disabled :
      {acc : ℤ} {skip m : ℕ} {s : Sim source}
      → Quiet (ports source s) s.dut
      → s.dut.ctrl.en_reg ≡ false
      → (rising_edge source s).dut.ctrl.start_pulse ≡ false
      → Ahead source lag supply acc skip m s
      → Ahead source lag supply acc skip m (rising_edge source s)
  Ahead-edge_disabled {acc} {skip} {m} {s} q en no_start a =
      Ahead-edge_by m (omega arith) q no_start
        (λ d word words run low h partial skips held g le.
          withheld-Next source lag supply acc skip m d word words s q en run low h partial skips
            held g le)
        a

  pub Ahead-edge :
      {acc : ℤ} {skip m : ℕ} {s : Sim source}
      → IsCalm source lag supply s
      → Ahead source lag supply acc skip m s
      → Ahead source lag supply acc skip (m - 1) (rising_edge source s)
  Ahead-edge {s = s} c a =
      Ahead-edge_enabled (c.no_write.0, c.no_clear) c.enabled (IsCalm-edge source lag supply s c).1
        a
