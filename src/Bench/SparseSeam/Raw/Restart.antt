-- ===== src/Bench/SparseSeam/Raw/Restart.antt =====
-- test_clear_mid_tile of tb/sparse_cnn_axi/tb_sparse_cnn_axi.py, on the wrapper.
use mathlib.Core.Path.{subst}
use zynq_rtl_flow.Base.{
  ℕ, suc, ◌+◌, ◌^◌, ◌≤◌, ◌<◌, ◌==◌, List, ◌∷◌, map, length, length-drop, drop, All, ◌≡◌, refl, sym,
  ap, ◌∙◌, arith, ok,
}
use zynq_rtl_flow.Base.Int.{ℤ, pos}
use zynq_rtl_flow.Golden.SparseMac.{golden_from, zip}
use zynq_rtl_flow.Golden.Draws.Range.{IsPair}
use zynq_rtl_flow.Effects.{M, ◌>>=◌, lift, modify, gets}
use zynq_rtl_flow.Effects.Laws.{bind-ok}
use zynq_rtl_flow.Rtl.Wrapper.Edges.{operands}
use zynq_rtl_flow.Bench.PeSeam.{check}
use zynq_rtl_flow.Bench.SparseSeam.{reg_ctrl, reg_acc, reg_skip, ctrl_clear, ctrl_en, pack_pair}
use zynq_rtl_flow.Bench.SparseSeam.Cases.{expect}
use zynq_rtl_flow.Bench.SparseSeam.Raw.{
  StreamSource, Sim, ports, drive, rising_edge, present_read, raw_write_dword, raw_bus,
}
use zynq_rtl_flow.Bench.SparseSeam.Raw.Steps.{IsIdle}
use zynq_rtl_flow.Bench.SparseSeam.Raw.Writes.{write_cycle, written}
use zynq_rtl_flow.Bench.SparseSeam.Raw.Supply.{Supply}
use zynq_rtl_flow.Bench.SparseSeam.Raw.Reads.{rd_mux-acc, rd_mux-skip}
use zynq_rtl_flow.Bench.SparseSeam.Raw.Check.{IsReady}
use zynq_rtl_flow.Bench.SparseSeam.Raw.Pass.{packed-golden, length-pack}
use zynq_rtl_flow.Bench.SparseSeam.Raw.Watched.{Controls, counted, counted-Supply}
use zynq_rtl_flow.Bench.SparseSeam.Raw.Finish.{check-same, AreGolden, finish, finish-passes}
use zynq_rtl_flow.Bench.SparseSeam.Raw.Underway.{write-IsUnderway, underway-IsPolling}
use zynq_rtl_flow.Bench.SparseSeam.Raw.Paused.{IsPaused, clear-IsCleared}
use zynq_rtl_flow.Bench.SparseSeam.Raw.ClearMid.{
  drop-zip, drop-pack, All-drop, IsRestarted, expect-IsRestarted, restarted-IsUnderway,
}

-- what is left of a frame is no longer than the frame
left_words :
    (k : ℕ) (frame : List ℕ) (word : ℕ) (words : List ℕ)
    → drop k frame ≡ word ∷ words
    → suc (length words) ≤ length frame
left_words k frame word words left = omega (arith, length-drop k frame, ap length left)

module _ (source : StreamSource) (lag : ℕ) (supply : Supply source lag)
    (controls : Controls source) where
  abbrev src : StreamSource
  src = counted source

  abbrev sup : Supply src lag
  sup = counted-Supply source lag supply

  abbrev frame_of : List ℤ → List ℤ → List ℕ
  frame_of weights acts = map pack_pair (zip weights acts)

  -- the golden results of what a frame has left are those of the pairs that are left
  left-AreGolden :
      (k : ℕ) (weights acts : List ℤ) (word : ℕ) (words : List ℕ)
      → drop k (frame_of weights acts) ≡ word ∷ words
      → All IsPair (zip weights acts)
      → length (zip weights acts) < 2 ^ 16
      → let g = golden_from (pos 0) 0 (map operands (word ∷ words)) in
        AreGolden (drop k weights) (drop k acts) g.0 g.1
  left-AreGolden k weights acts word words left fits short =
      let pairs = drop-zip k weights acts in
      packed-golden src lag sup (drop k weights) (drop k acts) word words
        (ap (map pack_pair) pairs ∙ (drop-pack k (zip weights acts) ∙ left))
        (subst (All IsPair) (sym pairs) (All-drop k (zip weights acts) fits))
        (omega (arith, ap length pairs, length-drop k (zip weights acts), short))

  -- the test behind its split, for the pairs that are left
  abbrev pub restarts : ℕ → ℕ → List ℤ → List ℤ → M (Sim src) (Unit {0})
  restarts n split weights acts =
      let bus = raw_bus src (suc (suc (suc n))) in
      raw_write_dword src (suc (suc (suc n))) reg_ctrl ctrl_clear >>= λ _.
      modify (rising_edge src) >>= λ _. expect bus reg_acc 0 >>= λ _. expect bus reg_skip 0 >>= λ _.
      gets (λ s. s.src.total) >>= λ now. lift (check (now == split)) >>= λ _.
      raw_write_dword src (suc (suc (suc n))) reg_ctrl ctrl_en >>= λ _.
      finish source lag supply controls n (drop split weights) (drop split acts)

  -- from both reads on
  abbrev resumes : ℕ → ℕ → List ℤ → List ℤ → M (Sim src) (Unit {0})
  resumes n split weights acts = gets (λ s. s.src.total) >>= λ now.
      lift (check (now == split)) >>= λ _.
      raw_write_dword src (suc (suc (suc n))) reg_ctrl ctrl_en >>= λ _.
      finish source lag supply controls n (drop split weights) (drop split acts)

  resumes-passes :
      (n m : ℕ) (weights acts : List ℤ) {total : ℕ} (s : Sim src)
      → All IsPair (zip weights acts)
      → m + length (zip weights acts) ≤ 19995
      → IsRestarted source lag supply (frame_of weights acts) total m s
      → (t : Sim src) × (resumes n total weights acts s ≡ (ok tt, t)) × IsReady src lag sup t
  resumes-passes n m weights acts {total} s fits enough h =
      let p = h.cleared.paused in
      let pairs = zip weights acts in
      let (ends, high, free) =
        write-IsUnderway src lag sup (suc (suc n)) 4 refl refl
          (restarted-IsUnderway source lag supply (frame_of weights acts) h) in
      let t = written src (write_cycle src 4 4 s) in
      let few = left_words total (frame_of weights acts) p.word p.words p.counts.left in
      let (u, passes, ready) =
        finish-passes source lag supply controls n (m + length p.words + 2) (drop total weights)
          (drop total acts) t (omega (arith, few, length-pack pairs, enough))
          (left-AreGolden total weights acts p.word p.words p.counts.left fits
            (omega (arith, enough)))
          (underway-IsPolling src lag sup high free) in
      let last = λ (_ : Unit {0}).
        finish source lag supply controls n (drop total weights) (drop total acts) in
      let resume = raw_write_dword src (suc (suc (suc n))) reg_ctrl ctrl_en in
      (
        u,
        bind-ok (lift (check (s.src.total == total))) (λ _. resume >>= last) s s tt
              (check-same _ _ s p.counts.total_is)
            ∙ (bind-ok resume last s t tt ends ∙ passes),
        ready,
      )

  pub restarts-passes :
      (n m : ℕ) (weights acts : List ℤ) {total : ℕ} (s : Sim src)
      → All IsPair (zip weights acts)
      → m + length (zip weights acts) ≤ 19995
      → IsIdle src s
      → IsPaused source lag supply (frame_of weights acts) total m s
      → (t : Sim src) × (restarts n total weights acts s ≡ (ok tt, t)) × IsReady src lag sup t
  restarts-passes n m weights acts {total} s fits enough i h =
      let bus = raw_bus src (suc (suc (suc n))) in
      let frame = frame_of weights acts in
      let (ends, idle, free, cleared) =
        clear-IsCleared source lag supply frame (suc (suc n)) s i h in
      let s1 = written src (write_cycle src 4 2 s) in
      let s2 = rising_edge src s1 in
      let r2 : IsRestarted source lag supply frame total m s2 = record {
        idle = idle;
        free = free;
        cleared = cleared;
      } in
      let (s3, acc, r3) =
        expect-IsRestarted source lag supply frame n reg_acc s2
          (rd_mux-acc (ports src (drive src (present_read reg_acc) s2)) s2.dut refl
            ∙ cleared.no_acc)
          r2 in
      let (s4, skip, r4) =
        expect-IsRestarted source lag supply frame n reg_skip s3
          (rd_mux-skip (ports src (drive src (present_read reg_skip) s3)) s3.dut refl
            ∙ r3.cleared.no_skip)
          r3 in
      let (t, passes, ready) = resumes-passes n m weights acts s4 fits enough r4 in
      let last = λ (_ : Unit {0}). resumes n total weights acts in
      let skips = λ (_ : Unit {0}). expect bus reg_skip 0 >>= last in
      (
        t,
        bind-ok (raw_write_dword src (suc (suc (suc n))) reg_ctrl ctrl_clear)
              (λ _. modify (rising_edge src) >>= λ _. expect bus reg_acc 0 >>= skips) s s1 tt ends
            ∙ (bind-ok (expect bus reg_acc 0) skips s2 s3 tt acc
                ∙ (bind-ok (expect bus reg_skip 0) last s3 s4 tt skip ∙ passes)),
        ready,
      )
