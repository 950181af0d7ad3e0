-- ===== src/Bench/SparseSeam/Raw/Aborted.antt =====
-- test_reset_mid_stream of tb/sparse_cnn_axi/tb_sparse_cnn_axi.py, on the wrapper.
use zynq_rtl_flow.Base.{
  ℕ, suc, ◌+◌, ◌≤◌, ◌<◌, List, [], ◌∷◌, map, length, All, ◌≡◌, refl, ap, ◌∙◌, arith, ok, true,
  false,
}
use zynq_rtl_flow.Base.Int.{ℤ}
use zynq_rtl_flow.Golden.Rng.{Rng}
use zynq_rtl_flow.Golden.SparseMac.{zip}
use zynq_rtl_flow.Golden.Draws.{gen_pairs}
use zynq_rtl_flow.Golden.Draws.Range.{IsPair, gen_pairs_fits}
use zynq_rtl_flow.Effects.{M, ◌>>=◌, modify}
use zynq_rtl_flow.Effects.Laws.{bind-ok}
use zynq_rtl_flow.Bench.SparseSeam.{
  reg_status, reg_ctrl, reg_acc, reg_skip, ctrl_en, pack_pair, start, send, check_tile,
}
use zynq_rtl_flow.Bench.SparseSeam.Cases.{expect}
use zynq_rtl_flow.Bench.SparseSeam.Clocked.{wait_rising, test_reset_mid_stream}
use zynq_rtl_flow.Bench.SparseSeam.Raw.{StreamSource, Sim, rising_edge, raw_bus}
use zynq_rtl_flow.Bench.SparseSeam.Raw.Cases.{bring_up}
use zynq_rtl_flow.Bench.SparseSeam.Raw.Supply.{Supply}
use zynq_rtl_flow.Bench.SparseSeam.Raw.Check.{IsReady, started_from, queued, submitted-IsPolling}
use zynq_rtl_flow.Bench.SparseSeam.Raw.Pass.{first_of, check_tile-passes}
use zynq_rtl_flow.Bench.SparseSeam.Raw.Tiles.{bring_up-IsReady}
use zynq_rtl_flow.Bench.SparseSeam.Raw.Watched.{Controls, Obeys, counted, watched, counted-Supply}
use zynq_rtl_flow.Bench.SparseSeam.Raw.Rest.{IsRest, rest-IsReady, expect-IsRest}
use zynq_rtl_flow.Bench.SparseSeam.Raw.MidStream.{
  ahead-Serves, IsStreaming, IsStreaming-first, IsStreaming-edge, wait_rising-keeps, reset_by,
  reset_by-IsRest,
}

module _ (source : StreamSource) (lag : ℕ) (supply : Supply source lag)
    (controls : Controls source) where
  abbrev src : StreamSource
  src = counted source

  abbrev sup : Supply src lag
  sup = counted-Supply source lag supply

  -- the test behind its reset
  abbrev reads_reset : ℕ → List ℤ → List ℤ → M (Sim src) (Unit {0})
  reads_reset n weights acts =
      let bus = raw_bus src (suc (suc (suc n))) in
      expect bus reg_status 0 >>= λ _. expect bus reg_ctrl ctrl_en >>= λ _.
      expect bus reg_acc 0 >>= λ _. expect bus reg_skip 0 >>= λ _. check_tile bus weights acts

  reads_reset-passes :
      (n : ℕ) (weights acts : List ℤ) (s : Sim src)
      → All IsPair (zip weights acts)
      → 0 < length (zip weights acts)
      → lag + length (zip weights acts) ≤ 19995
      → IsRest src lag sup false 0 0 s
      → (t : Sim src) × (reads_reset n weights acts s ≡ (ok tt, t)) × IsReady src lag sup t
  reads_reset-passes n weights acts s fits some enough h =
      let bus = raw_bus src (suc (suc (suc n))) in
      let (s1, status, h1) = expect-IsRest src lag sup n reg_status 0 s refl h in
      let (s2, ctrl, h2) = expect-IsRest src lag sup n reg_ctrl ctrl_en s1 refl h1 in
      let (s3, acc, h3) = expect-IsRest src lag sup n reg_acc 0 s2 refl h2 in
      let (s4, skip, h4) = expect-IsRest src lag sup n reg_skip 0 s3 refl h3 in
      let (t, passes, ready) =
        check_tile-passes src lag sup n weights acts s4 fits some enough
          (rest-IsReady src lag sup h4) in
      let tile = λ (_ : Unit {0}). check_tile bus weights acts in
      let skips = λ (_ : Unit {0}). expect bus reg_skip 0 >>= tile in
      let accs = λ (_ : Unit {0}). expect bus reg_acc 0 >>= skips in
      let ctrls = λ (_ : Unit {0}). expect bus reg_ctrl ctrl_en >>= accs in
      (
        t,
        bind-ok (expect bus reg_status 0) ctrls s s1 tt status
            ∙ (bind-ok (expect bus reg_ctrl ctrl_en) accs s1 s2 tt ctrl
                ∙ (bind-ok (expect bus reg_acc 0) skips s2 s3 tt acc
                    ∙ (bind-ok (expect bus reg_skip 0) tile s3 s4 tt skip ∙ passes))),
        ready,
      )

  -- the test behind the queue of its first tile
  abbrev resets : ℕ → List ℤ → List ℤ → M (Sim src) (Unit {0})
  resets n weights acts =
      let clocked = watched source controls (suc (suc (suc n))) in
      modify (wait_rising clocked 16) >>= λ _. modify (clocked.drive_aresetn false) >>= λ _.
      modify (wait_rising clocked 5) >>= λ _. modify (clocked.drive_aresetn true) >>= λ _.
      modify (rising_edge src) >>= λ _. modify clocked.clear_source >>= λ _.
      modify (rising_edge src) >>= λ _. reads_reset n weights acts

  -- from START on
  abbrev aborts_tile : ℕ → List ℤ → List ℤ → List ℤ → List ℤ → M (Sim src) (Unit {0})
  aborts_tile n weights acts after_weights after_acts =
      let bus = raw_bus src (suc (suc (suc n))) in
      start bus >>= λ _. send bus weights acts >>= λ _. resets n after_weights after_acts

  -- The state behind sixteen edges of the first tile.
  streamed-IsStreaming :
      (n word : ℕ) (words : List ℕ) (s : Sim src)
      → IsReady src lag sup s
      → let u = queued src lag sup (word ∷ words) (started_from src lag sup s) in
        IsStreaming source lag supply controls
          (wait_rising (watched source controls (suc (suc (suc n)))) 16 u)
  unfolding wait_rising
  streamed-IsStreaming n word words s r =
      let u = queued src lag sup (word ∷ words) (started_from src lag sup s) in
      let (_, polling) = submitted-IsPolling src lag sup n word words s r in
      wait_rising-keeps source lag supply controls (suc (suc (suc n))) 15
        (IsStreaming source lag supply controls) (rising_edge src u)
        (λ v g. IsStreaming-edge source lag supply controls v g)
        (IsStreaming-first source lag supply controls u polling.idle
          (ahead-Serves source lag supply controls polling.ahead))

  aborts_tile-passes :
      (n : ℕ) (weights acts after_weights after_acts : List ℤ) (p : ℤ × ℤ) (pairs : List (ℤ × ℤ))
      (s : Sim src)
      → Obeys source lag supply controls
      → zip weights acts ≡ p ∷ pairs
      → All IsPair (zip after_weights after_acts)
      → 0 < length (zip after_weights after_acts)
      → lag + length (zip after_weights after_acts) ≤ 19995
      → IsReady src lag sup s
      → (t : Sim src) × (aborts_tile n weights acts after_weights after_acts s ≡ (ok tt, t))
        × IsReady src lag sup t
  unfolding send start
  aborts_tile-passes n weights acts after_weights after_acts p pairs s obeys split fits some enough
        r =
      let rounds = suc (suc (suc n)) in
      let clocked = watched source controls rounds in
      let word = pack_pair p in
      let words = map pack_pair pairs in
      let s1 = started_from src lag sup s in
      let s2 = queued src lag sup (word ∷ words) s1 in
      let (begins, _) = submitted-IsPolling src lag sup n word words s r in
      let s3 = wait_rising clocked 16 s2 in
      let rest =
        reset_by-IsRest source lag supply controls obeys rounds s3
          (streamed-IsStreaming n word words s r) in
      let (t, passes, ready) =
        reads_reset-passes n after_weights after_acts
          (reset_by source lag supply controls rounds s3) fits some enough rest in
      let last = λ (_ : Unit {0}). resets n after_weights after_acts in
      (
        t,
        bind-ok (start clocked.bus) (λ _. send clocked.bus weights acts >>= last) s s1 tt begins
            ∙ (bind-ok (send clocked.bus weights acts) last s1 s2 tt
                  (ap (λ x. (ok tt, queued src lag sup x s1)) (ap (map pack_pair) split))
                ∙ passes),
        ready,
      )

  -- Whatever the simulation starts in, test_reset_mid_stream passes on the wrapper, through
  -- RawAxiLite, for any draws of the generator and a source that stalls at most 19900 cycles in a
  -- frame, holds nothing at first and drops the frame it is sending at a reset: behind the reset
  -- STATUS, ACC and SKIP read 0 and CTRL reads EN, and a fresh tile passes its check.
  pub test_reset_mid_stream-passes :
      (n : ℕ) (rng : Rng) (d : ℕ) (s : Sim src)
      → Obeys source lag supply controls
      → lag ≤ 19900
      → supply.Holds d [] s.src.inner
      → (t : Sim src) × (test_reset_mid_stream
            (watched source controls (suc (suc (suc n))))
            rng
            (bring_up src s)
          ≡ (ok tt, t))
        × IsReady src lag sup t
  unfolding test_reset_mid_stream
  test_reset_mid_stream-passes n rng d s obeys few h =
      let tile = gen_pairs rng 512 0 40 in
      let after = gen_pairs rng 32 20 41 in
      let (_, length_is) = gen_pairs_fits rng 512 0 40 in
      let (fits, length_is') = gen_pairs_fits rng 32 20 41 in
      let (p, pairs, split) = first_of (zip tile.0 tile.1) (omega (arith, length_is)) in
      aborts_tile-passes n tile.0 tile.1 after.0 after.1 p pairs (bring_up src s) obeys split fits
        (omega (arith, length_is')) (omega (arith, length_is', few))
        (bring_up-IsReady src lag sup d s h)
