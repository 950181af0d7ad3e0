-- ===== src/Bench/SparseSeam/Raw/Stall.antt =====
-- The tests of tb/sparse_cnn_axi/tb_sparse_cnn_axi.py that stall a tile, on the wrapper.
use zynq_rtl_flow.Base.{
  ℕ, suc, ◌+◌, ◌≤◌, List, [], ◌∷◌, map, length, All, false, true, ◌≡◌, refl, ap, ◌∙◌, arith, ok,
}
use zynq_rtl_flow.Base.Int.{ℤ}
use zynq_rtl_flow.Golden.Rng.{Rng}
use zynq_rtl_flow.Golden.SparseMac.{zip}
use zynq_rtl_flow.Golden.Draws.{gen_pairs}
use zynq_rtl_flow.Golden.Draws.Range.{IsPair, gen_pairs_fits}
use zynq_rtl_flow.Effects.{M, ◌>>=◌, modify}
use zynq_rtl_flow.Effects.Laws.{bind-ok}
use zynq_rtl_flow.Bench.SparseSeam.{reg_ctrl, ctrl_en, pack_pair, start, send}
use zynq_rtl_flow.Bench.SparseSeam.Clocked.{
  withheld, wait_rising, cycle_pauses, test_backpressure_from_source,
  test_backpressure_from_wrapper,
}
use zynq_rtl_flow.Bench.SparseSeam.Raw.{StreamSource, Sim, rising_edge, raw_write_dword}
use zynq_rtl_flow.Bench.SparseSeam.Raw.Cases.{bring_up}
use zynq_rtl_flow.Bench.SparseSeam.Raw.Writes.{write_cycle, written}
use zynq_rtl_flow.Bench.SparseSeam.Raw.Supply.{Supply}
use zynq_rtl_flow.Bench.SparseSeam.Raw.Check.{IsReady, started_from, queued, submitted-IsPolling}
use zynq_rtl_flow.Bench.SparseSeam.Raw.Pass.{
  first_of, fits_polls, short, packed-golden, check_tile-passes,
}
use zynq_rtl_flow.Bench.SparseSeam.Raw.Tiles.{bring_up-IsReady}
use zynq_rtl_flow.Bench.SparseSeam.Raw.Watched.{
  Controls, Obeys, counted, to_source, watched, counted-Supply,
}
use zynq_rtl_flow.Bench.SparseSeam.Raw.Finish.{AreGolden, finish, finish-passes, to_source-IsReady}
use zynq_rtl_flow.Bench.SparseSeam.Raw.NoBeats.{withheld-passes}
use zynq_rtl_flow.Bench.SparseSeam.Raw.Underway.{
  IsUnderway, polling-IsUnderway, IsUnderway-edge, IsUnderway-tready, write-IsUnderway,
  underway-IsPolling,
}

module _ (source : StreamSource) (lag : ℕ) (supply : Supply source lag)
    (controls : Controls source) where
  abbrev src : StreamSource
  src = counted source

  abbrev sup : Supply src lag
  sup = counted-Supply source lag supply

  -- the test from its stall on: EN withdrawn for so many cycles, then the end
  abbrev stalls : ℕ → ℕ → List ℤ → List ℤ → M (Sim src) (Unit {0})
  stalls n k weights acts =
      let clocked = watched source controls (suc (suc (suc n))) in
      raw_write_dword src (suc (suc (suc n))) reg_ctrl 0 >>= λ _. withheld clocked k >>= λ _.
      raw_write_dword src (suc (suc (suc n))) reg_ctrl ctrl_en >>= λ _.
      finish source lag supply controls n weights acts

  -- A tile on its way is not harmed by the stall.
  stalls-pass :
      (n k m : ℕ) (weights acts : List ℤ) {acc : ℤ} {skip : ℕ} (s : Sim src)
      → m ≤ 19998
      → AreGolden weights acts acc skip
      → IsUnderway src lag sup true acc skip m s
      → (t : Sim src) × (stalls n k weights acts s ≡ (ok tt, t)) × IsReady src lag sup t
  stalls-pass n k m weights acts {acc} {skip} s enough same h =
      let rounds = suc (suc (suc n)) in
      let clocked = watched source controls rounds in
      let (stops, low, _) = write-IsUnderway src lag sup (suc (suc n)) 0 refl refl h in
      let s1 = written src (write_cycle src 4 0 s) in
      let (stays, low') =
        withheld-passes source controls rounds k (IsUnderway src lag sup false acc skip m) s1
          (λ u g. IsUnderway-edge src lag sup g) (λ u g. IsUnderway-tready src lag sup g) low in
      let s2 = wait_rising clocked k s1 in
      let (resumes, high, free) = write-IsUnderway src lag sup (suc (suc n)) 4 refl refl low' in
      let s3 = written src (write_cycle src 4 4 s2) in
      let (t, passes, ready) =
        finish-passes source lag supply controls n m weights acts s3 enough same
          (underway-IsPolling src lag sup high free) in
      let last = λ (_ : Unit {0}). finish source lag supply controls n weights acts in
      let resume = raw_write_dword src rounds reg_ctrl ctrl_en in
      (
        t,
        bind-ok (raw_write_dword src rounds reg_ctrl 0)
              (λ _. withheld clocked k >>= λ _. resume >>= last) s s1 tt stops
            ∙ (bind-ok (withheld clocked k) (λ _. resume >>= last) s1 s2 tt stays
                ∙ (bind-ok resume last s2 s3 tt resumes ∙ passes)),
        ready,
      )

  -- the test for a tile: START, the queue, a cycle, and the stall
  abbrev stalled_tile : ℕ → ℕ → List ℤ → List ℤ → M (Sim src) (Unit {0})
  stalled_tile n k weights acts =
      let clocked = watched source controls (suc (suc (suc n))) in
      start clocked.bus >>= λ _. send clocked.bus weights acts >>= λ _.
      modify (rising_edge src) >>= λ _. stalls n k weights acts

  stalled_tile-passes :
      (n k : ℕ) (weights acts : List ℤ) (p : ℤ × ℤ) (pairs : List (ℤ × ℤ)) (s : Sim src)
      → zip weights acts ≡ p ∷ pairs
      → All IsPair (zip weights acts)
      → lag + length (zip weights acts) ≤ 19995
      → IsReady src lag sup s
      → (t : Sim src) × (stalled_tile n k weights acts s ≡ (ok tt, t)) × IsReady src lag sup t
  unfolding send start
  stalled_tile-passes n k weights acts p pairs s split fits enough r =
      let clocked = watched source controls (suc (suc (suc n))) in
      let word = pack_pair p in
      let words = map pack_pair pairs in
      let frame = ap (map pack_pair) split in
      let s1 = started_from src lag sup s in
      let s2 = queued src lag sup (word ∷ words) s1 in
      let s3 = rising_edge src s2 in
      let (begins, polling) = submitted-IsPolling src lag sup n word words s r in
      let underway = IsUnderway-edge src lag sup (polling-IsUnderway src lag sup polling) in
      let (t, passes, ready) =
        stalls-pass n k (lag + length words + 4) weights acts s3
          (fits_polls lag (zip weights acts) p pairs split enough)
          (packed-golden src lag sup weights acts word words frame fits
            (short lag (length (zip weights acts)) enough))
          underway in
      let last = λ (_ : Unit {0}). modify (rising_edge src) >>= λ _. stalls n k weights acts in
      (
        t,
        bind-ok (start clocked.bus) (λ _. send clocked.bus weights acts >>= last) s s1 tt begins
            ∙ (bind-ok (send clocked.bus weights acts) last s1 s2 tt
                  (ap (λ x. (ok tt, queued src lag sup x s1)) frame)
                ∙ passes),
        ready,
      )

  -- Whatever the simulation starts in, test_backpressure_from_wrapper passes on the wrapper, through
  -- RawAxiLite, for any draws of the generator and a source that stalls at most 19900 cycles in a
  -- frame and holds nothing at first: with EN cleared in the middle of the tile READY stays low for
  -- twenty cycles, and with EN set again the tile completes with its golden results.
  pub test_backpressure_from_wrapper-passes :
      (n : ℕ) (rng : Rng) (d : ℕ) (s : Sim src)
      → lag ≤ 19900
      → supply.Holds d [] s.src.inner
      → (t : Sim src) × (test_backpressure_from_wrapper
            (watched source controls (suc (suc (suc n))))
            rng
            (bring_up src s)
          ≡ (ok tt, t))
        × IsReady src lag sup t
  unfolding test_backpressure_from_wrapper
  test_backpressure_from_wrapper-passes n rng d s few h =
      let tile = gen_pairs rng 64 20 5 in
      let (fits, length_is) = gen_pairs_fits rng 64 20 5 in
      let (p, pairs, split) = first_of (zip tile.0 tile.1) (omega (arith, length_is)) in
      stalled_tile-passes n 20 tile.0 tile.1 p pairs (bring_up src s) split fits
        (omega (arith, length_is, few)) (bring_up-IsReady src lag sup d s h)

  -- Whatever the simulation starts in, test_backpressure_from_source passes on the wrapper, through
  -- RawAxiLite, for any draws of the generator and a source that holds nothing at first and stalls,
  -- by the pauses or else, at most 19900 cycles in a frame.
  pub test_backpressure_from_source-passes :
      (n : ℕ) (rng : Rng) (d : ℕ) (s : Sim src)
      → Obeys source lag supply controls
      → lag ≤ 19900
      → supply.Holds d [] s.src.inner
      → (t : Sim src) × (test_backpressure_from_source
            (watched source controls (suc (suc (suc n))))
            rng
            (bring_up src s)
          ≡ (ok tt, t))
        × IsReady src lag sup t
  unfolding test_backpressure_from_source
  test_backpressure_from_source-passes n rng d s obeys few h =
      let tile = gen_pairs rng 48 30 4 in
      let (fits, length_is) = gen_pairs_fits rng 48 30 4 in
      let r = bring_up-IsReady src lag sup d s h in
      let pausing = controls.set_pauses cycle_pauses in
      check_tile-passes src lag sup n tile.0 tile.1 (to_source source pausing (bring_up src s)) fits
        (omega (arith, length_is)) (omega (arith, length_is, few))
        (to_source-IsReady source lag supply pausing (bring_up src s)
          (λ e x g. obeys.pauses cycle_pauses e x g) r)
