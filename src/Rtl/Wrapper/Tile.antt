-- ===== src/Rtl/Wrapper/Tile.antt =====
-- A tile through the wrapper of rtl/sparse_cnn_axi.sv: however the stream and EN stall, the results
-- are the golden ones of the beats that were accepted.
use zynq_rtl_flow.Rtl.Wrapper.Edges.{
  operands, PeHolds, Quiet, step_acc, step_skip, stall-state, stall-PeHolds, beat-state,
  beat-PeHolds, start-edge, clear-edge, latch-edge, clear-done, run-done,
}
use zynq_rtl_flow.Base.{ℕ, ◌%◌, ◌^◌, List, [], ◌∷◌, map, true, false, ◌≡◌, ap, ◌∙◌, if◌then◌else◌}
use zynq_rtl_flow.Base.Int.{ℤ, pos}
use zynq_rtl_flow.Words.{low_bits}
use zynq_rtl_flow.Golden.SparseMac.{golden_from}
use zynq_rtl_flow.Rtl.Wrapper.{s_idle, s_run, s_latch, Ports, Wrapper, aclk_edge, takes_beat}

-- The cycles of a tile from the first in which a beat may be taken to the one that takes the last:
-- the beats that were taken, in order, and what the wrapper becomes. A cycle without a beat is one
-- in which the source or EN stalls.
pub data Feeds : Wrapper → List ℕ → Wrapper → Type 0 where
  last_beat :
      (p : Ports) (w : Wrapper)
      → Quiet p w
      → takes_beat p w ≡ true
      → p.tlast ≡ true
      → Feeds w (p.tdata ∷ []) (aclk_edge p w)
  stalled :
      (p : Ports) (w v : Wrapper) (words : List ℕ)
      → Quiet p w
      → takes_beat p w ≡ false
      → Feeds (aclk_edge p w) words v
      → Feeds w words v
  accepted :
      (p : Ports) (w v : Wrapper) (words : List ℕ)
      → Quiet p w
      → takes_beat p w ≡ true
      → p.tlast ≡ false
      → Feeds (aclk_edge p w) words v
      → Feeds w (p.tdata ∷ words) v

-- a property of every state that the cycles go through, the last one included
abbrev pub Throughout :
    (Wrapper → Type 0) → {w v : Wrapper} {words : List ℕ} → Feeds w words v → Type 0
Throughout P (last_beat p w q b l) = P w × P (aclk_edge p w)
Throughout P (stalled p w v words q b rest) = P w × Throughout P rest
Throughout P (accepted p w v words q b l rest) = P w × Throughout P rest

-- DONE stays low while the beats are taken.
Feeds-low :
    {w v : Wrapper} {words : List ℕ} (feeds : Feeds w words v)
    → w.state ≡ s_run
    → w.done_q ≡ false
    → Throughout (λ u. u.done_q ≡ false) feeds
Feeds-low (last_beat p w q b l) s low = (low, run-done p w q s low)
Feeds-low (stalled p w v words q b rest) s low =
    (low, Feeds-low rest (stall-state p w q s b) (run-done p w q s low))
Feeds-low (accepted p w v words q b l rest) s low = (
  low,
  Feeds-low rest (beat-state p w q s b ∙ ap (λ x. if x then s_latch else s_run) l)
      (run-done p w q s low),
)

-- A tile that began in S_RUN ends in S_LATCH, with the PE holding the golden results of the beats
-- from what it held before.
Feeds-PeHolds :
    {w v : Wrapper} {words : List ℕ}
    → Feeds w words v
    → (acc : ℤ) (skip : ℕ) → w.state ≡ s_run
    → PeHolds w.pe acc skip
    → (v.state ≡ s_latch)
      × PeHolds v.pe
          (golden_from acc skip (map operands words)).0
          (golden_from acc skip (map operands words)).1
unfolding golden_from
Feeds-PeHolds (last_beat p w q b l) acc skip s h = (
  beat-state p w q s b ∙ ap (λ x. if x then s_latch else s_run) l,
  beat-PeHolds p w acc skip q s b h,
)
Feeds-PeHolds (stalled p w v words q b rest) acc skip s h =
    Feeds-PeHolds rest acc skip (stall-state p w q s b) (stall-PeHolds p w acc skip q s b h)
Feeds-PeHolds (accepted p w v words q b l rest) acc skip s h =
    Feeds-PeHolds rest (step_acc acc p.tdata) (step_skip skip p.tdata)
      (beat-state p w q s b ∙ ap (λ x. if x then s_latch else s_run) l)
      (beat-PeHolds p w acc skip q s b h)

-- From START to DONE, whatever the stalls: once START is taken in the idle state, DONE is low until
-- the results are latched; the PE is cleared, the beats are taken until the last, and two edges later the wrapper is idle with
-- DONE set, ACC the 32 bits of the golden accumulator of the beats and SKIP the golden skip count
-- modulo 65536. Reset and the explicit clear stay away meanwhile.
pub tile_lem :
    (p0 p1 p2 : Ports) (w v : Wrapper) (words : List ℕ)
    → Quiet p0 w
    → w.state ≡ s_idle
    → w.ctrl.start_pulse ≡ true
    → Quiet p1 (aclk_edge p0 w)
    → (feeds : Feeds (aclk_edge p1 (aclk_edge p0 w)) words v) → Quiet p2 v
    → let golden = golden_from (pos 0) 0 (map operands words) in
      ((aclk_edge p0 w).done_q ≡ false)
      × Throughout (λ u. u.done_q ≡ false) feeds
      × ((aclk_edge p2 v).state ≡ s_idle)
      × ((aclk_edge p2 v).done_q ≡ true)
      × ((aclk_edge p2 v).acc_q ≡ low_bits 32 golden.0)
      × ((aclk_edge p2 v).skip_q ≡ golden.1 % 2 ^ 16)
tile_lem p0 p1 p2 w v words q0 s start q1 feeds q2 =
    let (clears, low) = start-edge p0 w q0.0 s start in
    let (runs, cleared) = clear-edge p1 (aclk_edge p0 w) q1.0 clears in
    let (latches, held) = Feeds-PeHolds feeds (pos 0) 0 runs cleared in
    let (idle, done, acc, skip) = latch-edge p2 v q2 latches in
    let still = Feeds-low feeds runs (clear-done p1 (aclk_edge p0 w) q1.0 clears low) in
    (low, still, idle, done, acc ∙ held.acc_is, skip ∙ held.skip_is)
