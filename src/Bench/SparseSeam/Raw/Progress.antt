-- ===== src/Bench/SparseSeam/Raw/Progress.antt =====
-- What an edge makes of a tile that is running: a beat is taken, or the source or EN stalls.
use mathlib.Core.Path.{subst, ap₂}
use zynq_rtl_flow.Base.{
  ℕ, ◌+◌, ◌-◌, ◌≤◌, List, [], ◌∷◌, map, length, true, false, ◌&&◌, ◌≡◌, ◌⊎◌, inl, inr, sym, ap, ◌∙◌,
  arith, if◌then◌else◌,
}
use zynq_rtl_flow.Base.Int.{ℤ}
use zynq_rtl_flow.Golden.SparseMac.{golden_from}
use zynq_rtl_flow.Rtl.Wrapper.{
  s_idle, s_clear, s_run, s_latch, Ports, Wrapper, aclk_edge, takes_beat, tready,
}
use zynq_rtl_flow.Rtl.Wrapper.Edges.{
  operands, PeHolds, Quiet, step_acc, step_skip, stall-state, stall-PeHolds, beat-state,
  beat-PeHolds,
}
use zynq_rtl_flow.Bench.SparseSeam.Raw.{StreamSource, Sim, ports, rising_edge}
use zynq_rtl_flow.Bench.SparseSeam.Raw.Supply.{beat_of, Supply, run-done, Ahead, running, latching}

pub not_run-tready :
    (w : Wrapper)
    → (w.state ≡ s_idle) ⊎ ((w.state ≡ s_clear) ⊎ (w.state ≡ s_latch))
    → tready w ≡ false
not_run-tready w (inl e) = ground arith
not_run-tready w (inr (inl e)) = ground arith
not_run-tready w (inr (inr e)) = ground arith

pub run-tready :
    (w : Wrapper)
    → w.state ≡ s_run
    → w.ctrl.en_reg ≡ true
    → w.ctrl.clear_pulse ≡ false
    → tready w ≡ true
run-tready w s e c = ground arith

pub disabled-tready : (w : Wrapper) → w.ctrl.en_reg ≡ false → tready w ≡ false
disabled-tready w e = ground arith

pub disabled-takes : (p : Ports) (w : Wrapper) → w.ctrl.en_reg ≡ false → takes_beat p w ≡ false
disabled-takes p w e = ground arith

module _ (source : StreamSource) (lag : ℕ) (supply : Supply source lag) where
  open supply use {Holds, rests, supplies}

  -- While the wrapper is not ready the source keeps its words.
  pub waits :
      (d word : ℕ) (words : List ℕ) (s : Sim source)
      → Holds d (word ∷ words) s.src
      → tready s.dut ≡ false
      → (e : ℕ) × (e ≤ d) × Holds e (word ∷ words) (rising_edge source s).src
  unfolding rising_edge
  waits d word words s h t = elim (supplies d word words s.src h) [
    | inl (_, kept, _) ↦
        (d, omega arith, subst (λ r. Holds d (word ∷ words) (source.advance r s.src)) (sym t) kept)
    | inr (_, e, q, kept) ↦ (e, omega (arith, q), kept (tready s.dut))
  ]

  abbrev Next : ℤ → ℕ → ℕ → Sim source → Type 0
  Next acc skip m s = Ahead source lag supply acc skip (m - 1) (rising_edge source s)

  beat-taken :
      (word : ℕ) (words : List ℕ) (s : Sim source)
      → Quiet (ports source s) s.dut
      → s.dut.ctrl.en_reg ≡ true
      → s.dut.state ≡ s_run
      → source.offered s.src ≡ beat_of word words
      → takes_beat (ports source s) s.dut ≡ true
  beat-taken word [] s q en run off =
      ap₂ ◌&&◌ (ap (λ b. b.tvalid) off) (run-tready s.dut run en q.1)
  beat-taken word (next ∷ words) s q en run off =
      ap₂ ◌&&◌ (ap (λ b. b.tvalid) off) (run-tready s.dut run en q.1)

  beat-data :
      (word : ℕ) (words : List ℕ) (x : source.Source)
      → source.offered x ≡ beat_of word words
      → (source.offered x).tdata ≡ word
  beat-data word [] x off = ap (λ b. b.tdata) off
  beat-data word (next ∷ words) x off = ap (λ b. b.tdata) off

  taken-PeHolds :
      (word : ℕ) (words : List ℕ) (s : Sim source)
      → Quiet (ports source s) s.dut
      → s.dut.ctrl.en_reg ≡ true
      → s.dut.state ≡ s_run
      → source.offered s.src ≡ beat_of word words
      → (partial : ℤ) (skips : ℕ) → PeHolds s.dut.pe partial skips
      → PeHolds (rising_edge source s).dut.pe (step_acc partial word) (step_skip skips word)
  unfolding rising_edge
  taken-PeHolds word words s q en run off partial skips h =
      let p = ports source s in
      subst (λ x. PeHolds (aclk_edge p s.dut).pe (step_acc partial x) (step_skip skips x))
        (beat-data word words s.src off)
        (beat-PeHolds p s.dut partial skips q run (beat-taken word words s q en run off) h)

  taken-state :
      (word : ℕ) (words : List ℕ) (s : Sim source)
      → Quiet (ports source s) s.dut
      → s.dut.ctrl.en_reg ≡ true
      → s.dut.state ≡ s_run
      → source.offered s.src ≡ beat_of word words
      → (rising_edge source s).dut.state ≡ (if (source.offered s.src).tlast then s_latch else s_run)
  unfolding rising_edge
  taken-state word words s q en run off =
      beat-state (ports source s) s.dut q run (beat-taken word words s q en run off)

  run-keeps :
      (s : Sim source)
      → s.aresetn ≡ true
      → s.dut.state ≡ s_run
      → s.dut.done_q ≡ false
      → (rising_edge source s).dut.done_q ≡ false
  unfolding rising_edge
  run-keeps s r run low = run-done (ports source s) s.dut r run ∙ low

  handed-on :
      (d : ℕ) (words : List ℕ) (s : Sim source)
      → Quiet (ports source s) s.dut
      → s.dut.ctrl.en_reg ≡ true
      → s.dut.state ≡ s_run
      → Holds d words (source.advance true s.src)
      → Holds d words (rising_edge source s).src
  unfolding rising_edge
  handed-on d words s q en run held =
      subst (λ r. Holds d words (source.advance r s.src)) (sym (run-tready s.dut run en q.1)) held

  -- a beat is taken: the final one, or one with others behind it
  taken-Next :
      (acc : ℤ) (skip m d word : ℕ) (words : List ℕ) (s : Sim source)
      → Quiet (ports source s) s.dut
      → s.dut.ctrl.en_reg ≡ true
      → s.dut.state ≡ s_run
      → s.dut.done_q ≡ false
      → source.offered s.src ≡ beat_of word words
      → Holds d words (source.advance true s.src)
      → (partial : ℤ) (skips : ℕ) → PeHolds s.dut.pe partial skips
      → golden_from partial skips (map operands (word ∷ words)) ≡ (acc, skip)
      → d + length words + 2 ≤ m
      → Next acc skip m s
  unfolding golden_from
  taken-Next acc skip m d word [] s q en run low off held partial skips h g le =
      let t = rising_edge source s in
      latching (m - 1) d t
        (taken-state word [] s q en run off ∙ ap (λ b. if b.tlast then s_latch else s_run) off)
        (run-keeps s q.0 run low) (handed-on d [] s q en run held)
        (subst (λ x. PeHolds t.dut.pe x.0 x.1) g
          (taken-PeHolds word [] s q en run off partial skips h))
        (omega (arith, le))
  taken-Next acc skip m d word (next ∷ words) s q en run low off held partial skips h g le =
      running (m - 1) d next words (rising_edge source s)
        (taken-state word (next ∷ words) s q en run off
          ∙ ap (λ b. if b.tlast then s_latch else s_run) off)
        (run-keeps s q.0 run low) (handed-on d (next ∷ words) s q en run held)
        (step_acc partial word) (step_skip skips word)
        (taken-PeHolds word (next ∷ words) s q en run off partial skips h) g (omega (arith, le))

  stalled-Next :
      (acc : ℤ) (skip m d word : ℕ) (words : List ℕ) (s : Sim source)
      → Quiet (ports source s) s.dut
      → s.dut.state ≡ s_run
      → s.dut.done_q ≡ false
      → takes_beat (ports source s) s.dut ≡ false
      → Holds d (word ∷ words) (source.advance (tready s.dut) s.src)
      → (partial : ℤ) (skips : ℕ) → PeHolds s.dut.pe partial skips
      → golden_from partial skips (map operands (word ∷ words)) ≡ (acc, skip)
      → d + length words + 3 ≤ m
      → Next acc skip m s
  unfolding rising_edge
  stalled-Next acc skip m d word words s q run low none kept partial skips h g le =
      let p = ports source s in
      running (m - 1) d word words (rising_edge source s) (stall-state p s.dut q run none)
        (run-keeps s q.0 run low) kept partial skips
        (stall-PeHolds p s.dut partial skips q run none h) g (omega arith)

  -- An edge of a running tile, with EN set: a beat is taken, or the source stalls.
  pub running-Next :
      (acc : ℤ) (skip m d word : ℕ) (words : List ℕ) (s : Sim source)
      → Quiet (ports source s) s.dut
      → s.dut.ctrl.en_reg ≡ true
      → s.dut.state ≡ s_run
      → s.dut.done_q ≡ false
      → Holds d (word ∷ words) s.src
      → (partial : ℤ) (skips : ℕ) → PeHolds s.dut.pe partial skips
      → golden_from partial skips (map operands (word ∷ words)) ≡ (acc, skip)
      → d + length words + 2 ≤ m
      → Next acc skip m s
  running-Next acc skip m d word words s q en run low h partial skips held g le =
      elim (supplies d word words s.src h) [
        | inl (off, _, handed) ↦
            taken-Next acc skip m d word words s q en run low off handed partial skips held g le
        | inr (none, e, less, kept) ↦
            stalled-Next acc skip m e word words s q run low (ap (λ b. b && tready s.dut) none)
              (kept (tready s.dut)) partial skips held g (omega (arith, less, le))
      ]

  -- An edge of a running tile, with EN low: no beat is taken.
  pub withheld-Next :
      (acc : ℤ) (skip m d word : ℕ) (words : List ℕ) (s : Sim source)
      → Quiet (ports source s) s.dut
      → s.dut.ctrl.en_reg ≡ false
      → s.dut.state ≡ s_run
      → s.dut.done_q ≡ false
      → Holds d (word ∷ words) s.src
      → (partial : ℤ) (skips : ℕ) → PeHolds s.dut.pe partial skips
      → golden_from partial skips (map operands (word ∷ words)) ≡ (acc, skip)
      → d + length words + 2 ≤ m
      → Ahead source lag supply acc skip m (rising_edge source s)
  unfolding rising_edge
  withheld-Next acc skip m d word words s q en run low h partial skips held g le =
      let (e, less, kept) = waits d word words s h (disabled-tready s.dut en) in
      let p = ports source s in
      let none = disabled-takes p s.dut en in
      running m e word words (rising_edge source s) (stall-state p s.dut q run none)
        (run-keeps s q.0 run low) kept partial skips
        (stall-PeHolds p s.dut partial skips q run none held) g (omega (arith, less, le))
