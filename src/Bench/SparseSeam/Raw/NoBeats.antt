-- ===== src/Bench/SparseSeam/Raw/NoBeats.antt =====
-- test_no_beats_before_start of tb/sparse_cnn_axi/tb_sparse_cnn_axi.py, on the wrapper.
use zynq_rtl_flow.Base.{
  ℕ, zero, suc, ◌+◌, ◌≤◌, not, List, [], ◌∷◌, map, length, All, false, ◌≡◌, refl, ap, ◌∙◌, arith,
  ok,
}
use zynq_rtl_flow.Base.Int.{ℤ}
use zynq_rtl_flow.Golden.Rng.{Rng}
use zynq_rtl_flow.Golden.SparseMac.{zip}
use zynq_rtl_flow.Golden.Draws.{gen_pairs}
use zynq_rtl_flow.Golden.Draws.Range.{IsPair, gen_pairs_fits}
use zynq_rtl_flow.Effects.{M, ◌>>=◌, lift}
use zynq_rtl_flow.Effects.Laws.{bind-ok}
use zynq_rtl_flow.Rtl.Wrapper.{tready}
use zynq_rtl_flow.Bench.PeSeam.{check}
use zynq_rtl_flow.Bench.SparseSeam.{pack_pair, start, send}
use zynq_rtl_flow.Bench.SparseSeam.Clocked.{withheld, wait_rising, test_no_beats_before_start}
use zynq_rtl_flow.Bench.SparseSeam.Raw.{StreamSource, Sim, rising_edge}
use zynq_rtl_flow.Bench.SparseSeam.Raw.Cases.{bring_up}
use zynq_rtl_flow.Bench.SparseSeam.Raw.Supply.{Supply}
use zynq_rtl_flow.Bench.SparseSeam.Raw.Check.{IsReady, started_from, queued}
use zynq_rtl_flow.Bench.SparseSeam.Raw.Pass.{first_of, fits_polls, short, packed-golden}
use zynq_rtl_flow.Bench.SparseSeam.Raw.Tiles.{bring_up-IsReady}
use zynq_rtl_flow.Bench.SparseSeam.Raw.Watched.{Controls, counted, watched, counted-Supply}
use zynq_rtl_flow.Bench.SparseSeam.Raw.Finish.{finish, finish-passes}
use zynq_rtl_flow.Bench.SparseSeam.Raw.Loaded.{
  IsLoaded, queued-IsLoaded, IsLoaded-tready, IsLoaded-edge, started-IsPolling,
}

module _ (source : StreamSource) (controls : Controls source) where
  -- READY is withheld where a state that keeps it low is kept by every edge.
  pub withheld-passes :
      (rounds k : ℕ) (P : Sim (counted source) → Type 0) (s : Sim (counted source))
      → ((u : Sim (counted source)) → P u → P (rising_edge (counted source) u))
      → ((u : Sim (counted source)) → P u → tready u.dut ≡ false)
      → P s
      → let t = wait_rising (watched source controls rounds) k s in
        (withheld (watched source controls rounds) k s ≡ (ok tt, t)) × P t
  unfolding withheld wait_rising
  withheld-passes rounds zero P s keeps shut h = (refl, h)
  withheld-passes rounds (suc k) P s keeps shut h =
      let e = rising_edge (counted source) s in
      let (rest, h') = withheld-passes rounds k P e keeps shut (keeps s h) in
      (
        bind-ok (lift (check (not (tready s.dut))))
              (λ _. withheld (watched source controls rounds) k) e e tt
              (ap (λ b. lift (check (not b)) e) (shut s h))
            ∙ rest,
        h',
      )

module _ (source : StreamSource) (lag : ℕ) (supply : Supply source lag)
    (controls : Controls source) where
  abbrev src : StreamSource
  src = counted source

  abbrev sup : Supply src lag
  sup = counted-Supply source lag supply

  -- the test for a tile: the queue, so many edges, START, the polls and the results
  abbrev submits_late : ℕ → ℕ → List ℤ → List ℤ → M (Sim src) (Unit {0})
  submits_late n k weights acts =
      let clocked = watched source controls (suc (suc (suc n))) in
      send clocked.bus weights acts >>= λ _. withheld clocked k >>= λ _.
      start clocked.bus >>= λ _. finish source lag supply controls n weights acts

  submits_late-passes :
      (n k : ℕ) (weights acts : List ℤ) (p : ℤ × ℤ) (pairs : List (ℤ × ℤ)) (s : Sim src)
      → zip weights acts ≡ p ∷ pairs
      → All IsPair (zip weights acts)
      → lag + length (zip weights acts) ≤ 19995
      → IsReady src lag sup s
      → (t : Sim src) × (submits_late n k weights acts s ≡ (ok tt, t)) × IsReady src lag sup t
  unfolding send start
  submits_late-passes n k weights acts p pairs s split fits enough r =
      let clocked = watched source controls (suc (suc (suc n))) in
      let word = pack_pair p in
      let words = map pack_pair pairs in
      let frame = ap (map pack_pair) split in
      let s1 = queued src lag sup (word ∷ words) s in
      let (stays, loaded) =
        withheld-passes source controls (suc (suc (suc n))) k (IsLoaded src lag sup word words) s1
          (λ u h. IsLoaded-edge src lag sup h) (λ u h. IsLoaded-tready src lag sup h)
          (queued-IsLoaded src lag sup word words s r) in
      let s2 = wait_rising clocked k s1 in
      let (begins, polling) = started-IsPolling src lag sup n word words s2 loaded in
      let s3 = started_from src lag sup s2 in
      let (t, passes, ready) =
        finish-passes source lag supply controls n (lag + length words + 4) weights acts s3
          (fits_polls lag (zip weights acts) p pairs split enough)
          (packed-golden src lag sup weights acts word words frame fits
            (short lag (length (zip weights acts)) enough))
          polling in
      let last = λ (_ : Unit {0}). finish source lag supply controls n weights acts in
      (
        t,
        bind-ok (send clocked.bus weights acts)
              (λ _. withheld clocked k >>= λ _. start clocked.bus >>= last) s s1 tt
              (ap (λ x. (ok tt, queued src lag sup x s)) frame)
            ∙ (bind-ok (withheld clocked k) (λ _. start clocked.bus >>= last) s1 s2 tt stays
                ∙ (bind-ok (start clocked.bus) last s2 s3 tt begins ∙ passes)),
        ready,
      )

  -- Whatever the simulation starts in, test_no_beats_before_start passes on the wrapper, through
  -- RawAxiLite, for any draws of the generator and a source that stalls at most 19900 cycles in a
  -- frame and holds nothing at first: with the tile queued READY stays low for the twenty cycles
  -- before START, and the tile then completes with its golden results.
  pub test_no_beats_before_start-passes :
      (n : ℕ) (rng : Rng) (d : ℕ) (s : Sim src)
      → lag ≤ 19900
      → supply.Holds d [] s.src.inner
      → (t : Sim src) × (test_no_beats_before_start
            (watched source controls (suc (suc (suc n))))
            rng
            (bring_up src s)
          ≡ (ok tt, t))
        × IsReady src lag sup t
  unfolding test_no_beats_before_start
  test_no_beats_before_start-passes n rng d s few h =
      let tile = gen_pairs rng 16 0 6 in
      let (fits, length_is) = gen_pairs_fits rng 16 0 6 in
      let (p, pairs, split) = first_of (zip tile.0 tile.1) (omega (arith, length_is)) in
      submits_late-passes n 20 tile.0 tile.1 p pairs (bring_up src s) split fits
        (omega (arith, length_is, few)) (bring_up-IsReady src lag sup d s h)
