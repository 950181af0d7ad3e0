-- ===== src/Bench/SparseSeam/Raw/Awaits.antt =====
-- A tile that was started and has no beats yet waits in the wrapper for them.
use zynq_rtl_flow.Base.{
  ℕ, ◌+◌, List, [], ◌∷◌, map, length, true, false, ◌&&◌, ◌≡◌, refl, ap, ◌∙◌, arith,
}
use zynq_rtl_flow.Base.Int.{pos}
use zynq_rtl_flow.Golden.SparseMac.{golden_from}
use zynq_rtl_flow.Rtl.AxiLite.{LiteMaster}
use zynq_rtl_flow.Rtl.Wrapper.{s_idle, s_clear, s_run, aclk_edge, tready}
use zynq_rtl_flow.Rtl.Wrapper.Edges.{
  operands, PeHolds, stall-state, stall-PeHolds, start-edge, clear-edge,
}
use zynq_rtl_flow.Bench.SparseSeam.Raw.{
  StreamSource, Sim, ports, drive, rising_edge, present_read, present_write, withdraw,
}
use zynq_rtl_flow.Bench.SparseSeam.Raw.Steps.{drop_read, settled, IsIdle, rising_edge-IsIdle}
use zynq_rtl_flow.Bench.SparseSeam.Raw.Ends.{read_cycle, delivered}
use zynq_rtl_flow.Bench.SparseSeam.Raw.Race.{race_cycle, raced}
use zynq_rtl_flow.Bench.SparseSeam.Raw.InFlight.{either}
use zynq_rtl_flow.Bench.SparseSeam.Raw.Supply.{
  Supply, IsCalm, IsCalm-edge, rest-edge, clear-done, run-done, Ahead, starting, clearing, running,
}
use zynq_rtl_flow.Bench.SparseSeam.Raw.Check.{IsReady, ready-IsCalm, queued}

module _ (source : StreamSource) (lag : ℕ) (supply : Supply source lag) where
  open supply use {Holds, rests, queues}

  -- started, cleared or waiting for the first beat
  pub data Awaits : Sim source → Type 0 where
    to_start :
        (d : ℕ) (s : Sim source)
        → s.dut.state ≡ s_idle
        → s.dut.ctrl.start_pulse ≡ true
        → Holds d [] s.src
        → Awaits s
    to_clear :
        (d : ℕ) (s : Sim source)
        → s.dut.state ≡ s_clear
        → s.dut.done_q ≡ false
        → Holds d [] s.src
        → Awaits s
    to_run :
        (d : ℕ) (s : Sim source)
        → s.dut.state ≡ s_run
        → s.dut.done_q ≡ false
        → Holds d [] s.src
        → PeHolds s.dut.pe (pos 0) 0
        → Awaits s

  -- No write comes, and a started tile waits.
  abbrev pub Waits : Sim source → Type 0
  Waits s = IsCalm source lag supply s × Awaits s

  Awaits-edge :
      {s : Sim source} → IsCalm source lag supply s → Awaits s → Awaits (rising_edge source s)
  unfolding rising_edge
  Awaits-edge c (to_start d s idle start h) =
      let (clears, low) = start-edge (ports source s) s.dut c.no_write.0 idle start in
      to_clear d (rising_edge source s) clears low ((rests d s.src h).1 (tready s.dut))
  Awaits-edge c (to_clear d s clears low h) =
      let (runs, cleared) = clear-edge (ports source s) s.dut c.no_write.0 clears in
      to_run d (rising_edge source s) runs
        (clear-done (ports source s) s.dut c.no_write.0 clears ∙ low)
        ((rests d s.src h).1 (tready s.dut)) cleared
  Awaits-edge c (to_run d s runs low h held) =
      let p = ports source s in
      let (none, empty) = rests d s.src h in
      let idle = ap (λ b. b && tready s.dut) none in
      to_run d (rising_edge source s) (stall-state p s.dut (c.no_write.0, c.no_clear) runs idle)
        (run-done p s.dut c.no_write.0 runs ∙ low) (empty (tready s.dut))
        (stall-PeHolds p s.dut (pos 0) 0 (c.no_write.0, c.no_clear) runs idle held)

  drive-Awaits :
      (f : LiteMaster → LiteMaster) {s : Sim source} → Awaits s → Awaits (drive source f s)
  drive-Awaits f (to_start d s a b h) = to_start d (drive source f s) a b h
  drive-Awaits f (to_clear d s a b h) = to_clear d (drive source f s) a b h
  drive-Awaits f (to_run d s a b h held) = to_run d (drive source f s) a b h held

  Waits-edge : (s : Sim source) → Waits s → Waits (rising_edge source s)
  Waits-edge s (c, w) = ((IsCalm-edge source lag supply s c).0, Awaits-edge c w)

  -- the address pins of a read do not matter
  Waits-ask : (addr : ℕ) (s : Sim source) → Waits s → Waits (drive source (present_read addr) s)
  Waits-ask addr s (c, w) = (
    record { no_write = c.no_write; no_clear = c.no_clear; enabled = c.enabled },
    drive-Awaits (present_read addr) w,
  )

  Waits-drop : (s : Sim source) → Waits s → Waits (drive source drop_read s)
  Waits-drop s (c, w) = (
    record { no_write = c.no_write; no_clear = c.no_clear; enabled = c.enabled },
    drive-Awaits drop_read w,
  )

  -- A read keeps the tile waiting.
  pub read-Waits :
      (s : Sim source)
      → IsIdle source s
      → Waits s
      → Waits (delivered source (read_cycle source 8 s))
  read-Waits s i w =
      let p = drive source (present_read 8) s in
      let a = read_cycle source 8 s in
      let asked = Waits-ask 8 s w in
      let b = rising_edge source a in
      Waits-edge (drive source drop_read b)
        (Waits-drop b (Waits-edge a (either Waits s.dut.read.rvalid_q (Waits-edge p asked) asked)))

  -- A frame that is queued for a waiting tile sets it on its way.
  pub queued-Ahead :
      (word : ℕ) (words : List ℕ) {s : Sim source}
      → Awaits s
      → let g = golden_from (pos 0) 0 (map operands (word ∷ words)) in
        Ahead source lag supply g.0 g.1
          (lag + length words + 4)
          (queued source lag supply (word ∷ words) s)
  queued-Ahead word words (to_start d s idle start h) =
      starting (lag + length words + 4) lag word words (queued source lag supply (word ∷ words) s)
        idle start (queues d (word ∷ words) s.src h) refl (omega arith)
  queued-Ahead word words (to_clear d s clears low h) =
      clearing (lag + length words + 4) lag word words (queued source lag supply (word ∷ words) s)
        clears low (queues d (word ∷ words) s.src h) refl (omega arith)
  queued-Ahead word words (to_run d s runs low h held) =
      running (lag + length words + 4) lag word words (queued source lag supply (word ∷ words) s)
        runs low (queues d (word ∷ words) s.src h) (pos 0) 0 held refl (omega arith)

  abbrev drop_both : LiteMaster → LiteMaster
  drop_both m = drop_read (withdraw source settled m)

  raced-ctrl :
      (s : Sim source)
      → IsIdle source s
      → s.dut.write.bvalid_q ≡ false
      → let v = rising_edge source (drive source (λ m. present_read 8 (present_write 4 5 m)) s) in
        (v.dut.ctrl.start_pulse ≡ true)
        × (v.dut.ctrl.clear_pulse ≡ false)
        × (v.dut.ctrl.en_reg ≡ true)
        × (v.dut.write.aw_pend ≡ false)
        × (v.dut.write.w_pend ≡ false)
  unfolding rising_edge aclk_edge
  raced-ctrl s i b = (ground arith, ground arith, ground arith, ground arith, ground arith)

  -- Behind the cycle that commits START between two tiles, a tile waits.
  pub raced-Waits :
      (s : Sim source)
      → IsReady source lag supply s
      → Waits (raced source (race_cycle source 4 5 8 s))
  unfolding rising_edge
  raced-Waits s r =
      let c = race_cycle source 4 5 8 s in
      let v = rising_edge source c in
      let s1 = rising_edge source s in
      let (j, b, _) = rising_edge-IsIdle source s r.idle in
      let (still, no_start) =
        IsCalm-edge source lag supply s (ready-IsCalm source lag supply s r) in
      let (idle, _, _, _) =
        rest-edge (ports source s) s.dut r.idle.running r.no_tile r.no_start r.no_clear in
      let (idle', _, _, _) =
        rest-edge (ports source c) s1.dut r.idle.running idle no_start still.no_clear in
      let (start, clear, en, aw, w) = raced-ctrl s1 j b in
      let empty = (rests r.slack s.src r.empty).1 (tready s.dut) in
      Waits-edge (drive source drop_both v) (
        record { no_write = (r.idle.running, refl, refl, aw, w); no_clear = clear; enabled = en },
        to_start r.slack (drive source drop_both v) idle' start
            ((rests r.slack s1.src empty).1 (tready s1.dut)),
      )
