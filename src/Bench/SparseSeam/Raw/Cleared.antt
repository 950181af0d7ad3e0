-- ===== src/Bench/SparseSeam/Raw/Cleared.antt =====
-- test_explicit_clear and test_id_register of tb/sparse_cnn_axi/tb_sparse_cnn_axi.py, on the wrapper.
use zynq_rtl_flow.Base.{
  ℕ, suc, ◌+◌, ◌≤◌, ◌<◌, List, [], length, All, false, true, ◌≡◌, refl, ◌∙◌, arith, ok,
}
use zynq_rtl_flow.Base.Int.{ℤ, pos, ◌==ℤ◌}
use zynq_rtl_flow.Words.{low_bits}
use zynq_rtl_flow.Golden.Rng.{Rng}
use zynq_rtl_flow.Golden.SparseMac.{zip, to_signed, acc_w}
use zynq_rtl_flow.Golden.Draws.{gen_pairs}
use zynq_rtl_flow.Golden.Draws.Range.{IsPair, gen_pairs_fits}
use zynq_rtl_flow.Effects.{M, ◌>>=◌, lift, modify}
use zynq_rtl_flow.Effects.Laws.{bind-ok}
use zynq_rtl_flow.Rtl.Wrapper.{s_idle, Ports, Wrapper, aclk_edge, tready}
use zynq_rtl_flow.Bench.PeSeam.{check}
use zynq_rtl_flow.Bench.SparseSeam.{reg_ctrl, reg_skip, ctrl_clear, ctrl_en, read_acc, check_tile}
use zynq_rtl_flow.Bench.SparseSeam.Cases.{expect}
use zynq_rtl_flow.Bench.SparseSeam.Clocked.{test_explicit_clear}
use zynq_rtl_flow.Bench.SparseSeam.Raw.{
  StreamSource, Sim, ports, rising_edge, raw_write_dword, raw_bus,
}
use zynq_rtl_flow.Bench.SparseSeam.Raw.Cases.{bring_up}
use zynq_rtl_flow.Bench.SparseSeam.Raw.Steps.{rising_edge-IsIdle}
use zynq_rtl_flow.Bench.SparseSeam.Raw.Writes.{write_cycle, written, raw_write_dword-ends}
use zynq_rtl_flow.Bench.SparseSeam.Raw.Registers.{written-ctrl}
use zynq_rtl_flow.Bench.SparseSeam.Raw.Supply.{Supply, NoWrite, IsCalm-edge, calm-ctrl, rest-edge}
use zynq_rtl_flow.Bench.SparseSeam.Raw.Check.{IsReady, IsIdle-NoWrite, ready-IsCalm}
use zynq_rtl_flow.Bench.SparseSeam.Raw.Pass.{check_tile-passes}
use zynq_rtl_flow.Bench.SparseSeam.Raw.Tiles.{bring_up-IsReady}
use zynq_rtl_flow.Bench.SparseSeam.Raw.Watched.{Controls, counted, watched, counted-Supply}
use zynq_rtl_flow.Bench.SparseSeam.Raw.Finish.{check-sameℤ}
use zynq_rtl_flow.Bench.SparseSeam.Raw.Rest.{
  IsRest, rest-IsReady, IsRest-edge, acc-IsRest, expect-IsRest,
}

zero_acc : to_signed (pos 0) acc_w ≡ pos 0
unfolding to_signed low_bits
zero_acc = refl

-- an explicit clear between two tiles
clear-results :
    (p : Ports) (w : Wrapper)
    → p.aresetn ≡ true
    → w.state ≡ s_idle
    → w.ctrl.start_pulse ≡ false
    → w.ctrl.clear_pulse ≡ true
    → let v = aclk_edge p w in (v.state ≡ s_idle) × (v.acc_q ≡ 0) × (v.skip_q ≡ 0)
unfolding aclk_edge
clear-results p w r s a c = (ground arith, ground arith, ground arith)

module _ (source : StreamSource) (lag : ℕ) (supply : Supply source lag) where
  -- CLEAR is written, and an edge has taken it
  abbrev cleared_from : Sim source → Sim source
  cleared_from s = written source (write_cycle source 4 6 s)

  cleared-IsRest :
      (n : ℕ) (s : Sim source)
      → IsReady source lag supply s
      → let t = cleared_from s in
        (raw_write_dword source (suc n) 4 6 s ≡ (ok tt, t))
        × IsRest source lag supply (rising_edge source t).dut.done_q 0 0 (rising_edge source t)
  unfolding rising_edge
  cleared-IsRest n s r =
      let presented = write_cycle source 4 6 s in
      let t = cleared_from s in
      let (ends, idle, _, _, _, _) = raw_write_dword-ends source n 4 6 s r.idle in
      let (j, b, q) = rising_edge-IsIdle source s r.idle in
      let (start, clear, en, free) = written-ctrl source 6 (rising_edge source s) j b q in
      let (still, no_start) =
        IsCalm-edge source lag supply s (ready-IsCalm source lag supply s r) in
      let (state, _, _, _) =
        rest-edge (ports source s) s.dut r.idle.running r.no_tile r.no_start r.no_clear in
      let (state', _, _, _) =
        rest-edge (ports source presented) presented.dut j.running state no_start still.no_clear in
      let n1 : NoWrite (ports source t) t.dut = IsIdle-NoWrite source lag supply t idle in
      let (start', clear', en', _, _) = calm-ctrl (ports source t) t.dut n1 in
      let (at_idle, acc, skip) =
        clear-results (ports source t) t.dut idle.running state' start clear in
      let (idle', _, free') = rising_edge-IsIdle source t idle in
      let e1 = (supply.rests r.slack s.src r.empty).1 (tready s.dut) in
      let e2 = (supply.rests r.slack presented.src e1).1 (tready presented.dut) in
      (
        ends,
        record {
          idle = idle';
          free = free';
          resting = record {
            no_tile = at_idle;
            no_start = start';
            no_clear = clear';
            enabled = en' ∙ en;
            done_is = refl;
            acc_is = acc;
            skip_is = skip;
          };
          slack = r.slack;
          empty = (supply.rests r.slack t.src e2).1 (tready t.dut);
        },
      )

module _ (source : StreamSource) (lag : ℕ) (supply : Supply source lag)
    (controls : Controls source) where
  abbrev src : StreamSource
  src = counted source

  abbrev sup : Supply src lag
  sup = counted-Supply source lag supply

  -- from the explicit clear on
  abbrev clears_and : ℕ → List ℤ → List ℤ → M (Sim src) (Unit {0})
  clears_and n weights acts =
      let clocked = watched source controls (suc (suc (suc n))) in
      raw_write_dword src (suc (suc (suc n))) reg_ctrl (ctrl_en + ctrl_clear) >>= λ _.
      modify clocked.two_periods >>= λ _. read_acc clocked.bus >>= λ acc.
      lift (check (acc ==ℤ pos 0)) >>= λ _.
      expect clocked.bus reg_skip 0 >>= λ _. check_tile clocked.bus weights acts

  clears_and-passes :
      (n : ℕ) (weights acts : List ℤ) (s : Sim src)
      → All IsPair (zip weights acts)
      → 0 < length (zip weights acts)
      → lag + length (zip weights acts) ≤ 19995
      → IsReady src lag sup s
      → (t : Sim src) × (clears_and n weights acts s ≡ (ok tt, t)) × IsReady src lag sup t
  clears_and-passes n weights acts s fits some enough r =
      let rounds = suc (suc (suc n)) in
      let bus = raw_bus src rounds in
      let t = cleared_from src lag sup s in
      let (ends, rest1) = cleared-IsRest src lag sup (suc (suc n)) s r in
      let s1 = rising_edge src (rising_edge src t) in
      let (s2, read, rest2) = acc-IsRest src lag sup n s1 (IsRest-edge src lag sup rest1) in
      let (s3, skip, rest3) = expect-IsRest src lag sup n reg_skip 0 s2 refl rest2 in
      let (u, passes, ready) =
        check_tile-passes src lag sup n weights acts s3 fits some enough
          (rest-IsReady src lag sup rest3) in
      let last = λ (_ : Unit {0}). check_tile bus weights acts in
      let skips = λ (_ : Unit {0}). expect bus reg_skip 0 >>= last in
      let reads = read_acc bus >>= λ acc. lift (check (acc ==ℤ pos 0)) >>= skips in
      (
        u,
        bind-ok (raw_write_dword src rounds reg_ctrl 6)
              (λ _. modify (λ v. rising_edge src (rising_edge src v)) >>= λ _. reads) s t tt ends
            ∙ (bind-ok (read_acc bus) (λ acc. lift (check (acc ==ℤ pos 0)) >>= skips) s1 s2 _ read
                ∙ (bind-ok (lift (check (to_signed (pos 0) acc_w ==ℤ pos 0))) skips s2 s2 tt
                      (check-sameℤ _ _ s2 zero_acc)
                    ∙ (bind-ok (expect bus reg_skip 0) last s2 s3 tt skip ∙ passes))),
        ready,
      )

  -- Whatever the simulation starts in, test_explicit_clear passes on the wrapper, through RawAxiLite,
  -- for any draws of the generator and a source that stalls at most 19900 cycles in a frame and holds
  -- nothing at first: CLEAR leaves both results 0, and the next tile passes its check.
  pub test_explicit_clear-passes :
      (n : ℕ) (rng : Rng) (d : ℕ) (s : Sim src)
      → lag ≤ 19900
      → supply.Holds d [] s.src.inner
      → (t : Sim src) × (test_explicit_clear
            (watched source controls (suc (suc (suc n))))
            rng
            (bring_up src s)
          ≡ (ok tt, t))
        × IsReady src lag sup t
  unfolding test_explicit_clear
  test_explicit_clear-passes n rng d s few h =
      let bus = raw_bus src (suc (suc (suc n))) in
      let tile = gen_pairs rng 32 40 30 in
      let after = gen_pairs rng 32 40 31 in
      let (fits, length_is) = gen_pairs_fits rng 32 40 30 in
      let (fits', length_is') = gen_pairs_fits rng 32 40 31 in
      let (t, passes, ready) =
        check_tile-passes src lag sup n tile.0 tile.1 (bring_up src s) fits
          (omega (arith, length_is)) (omega (arith, length_is, few))
          (bring_up-IsReady src lag sup d s h) in
      let (u, clears, ready') =
        clears_and-passes n after.0 after.1 t fits' (omega (arith, length_is'))
          (omega (arith, length_is', few)) ready in
      (
        u,
        bind-ok (check_tile bus tile.0 tile.1) (λ _. clears_and n after.0 after.1) (bring_up src s)
              t tt passes
            ∙ clears,
        ready',
      )
