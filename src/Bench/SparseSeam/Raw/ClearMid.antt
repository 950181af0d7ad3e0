-- ===== src/Bench/SparseSeam/Raw/ClearMid.antt =====
-- test_clear_mid_tile of tb/sparse_cnn_axi/tb_sparse_cnn_axi.py from its explicit clear on, on the
-- wrapper: the rest of the tile accumulates from zero.
use zynq_rtl_flow.Base.{
  ℕ, zero, suc, ◌+◌, ◌==◌, List, [], ◌∷◌, map, length, drop, All, false, ◌≡◌, refl, ◌∙◌, arith, ok,
}
use zynq_rtl_flow.Base.Int.{ℤ, pos}
use zynq_rtl_flow.Golden.SparseMac.{golden_from, zip}
use zynq_rtl_flow.Golden.Draws.Range.{IsPair}
use zynq_rtl_flow.Effects.{lift}
use zynq_rtl_flow.Effects.Laws.{bind-ok}
use zynq_rtl_flow.Rtl.AxiLite.{LiteMaster}
use zynq_rtl_flow.Rtl.Wrapper.{rd_mux}
use zynq_rtl_flow.Rtl.Wrapper.Edges.{operands}
use zynq_rtl_flow.Bench.PeSeam.{check}
use zynq_rtl_flow.Bench.SparseSeam.{pack_pair}
use zynq_rtl_flow.Bench.SparseSeam.Cases.{expect}
use zynq_rtl_flow.Bench.SparseSeam.Raw.{
  StreamSource, Sim, ports, drive, rising_edge, present_read, raw_read_dword, raw_bus,
}
use zynq_rtl_flow.Bench.SparseSeam.Raw.Steps.{drop_read, IsIdle}
use zynq_rtl_flow.Bench.SparseSeam.Raw.Ends.{delivered, raw_read_dword-ends}
use zynq_rtl_flow.Bench.SparseSeam.Raw.Registers.{read_cycle-free}
use zynq_rtl_flow.Bench.SparseSeam.Raw.Supply.{Supply, NoWrite, calm-ctrl, running}
use zynq_rtl_flow.Bench.SparseSeam.Raw.Watched.{counted, counted-Supply}
use zynq_rtl_flow.Bench.SparseSeam.Raw.Finish.{check-same}
use zynq_rtl_flow.Bench.SparseSeam.Raw.Underway.{IsUnderway}
use zynq_rtl_flow.Bench.SparseSeam.Raw.Paused.{drive-IsPaused, IsCleared, IsCleared-edge}

zip-none : (xs : List ℤ) → zip xs [] ≡ []
unfolding zip
zip-none [] = refl
zip-none (x ∷ xs) = refl

pub drop-zip : (k : ℕ) (xs ys : List ℤ) → zip (drop k xs) (drop k ys) ≡ drop k (zip xs ys)
unfolding zip
drop-zip zero xs ys = refl
drop-zip (suc k) [] [] = refl
drop-zip (suc k) [] (y ∷ ys) = refl
drop-zip (suc k) (x ∷ xs) [] = zip-none (drop k xs)
drop-zip (suc k) (x ∷ xs) (y ∷ ys) = drop-zip k xs ys

pub drop-pack :
    (k : ℕ) (pairs : List (ℤ × ℤ)) → map pack_pair (drop k pairs) ≡ drop k (map pack_pair pairs)
drop-pack zero pairs = refl
drop-pack (suc k) [] = refl
drop-pack (suc k) (p ∷ pairs) = drop-pack k pairs

pub All-drop : (k : ℕ) (pairs : List (ℤ × ℤ)) → All IsPair pairs → All IsPair (drop k pairs)
All-drop zero pairs h = h
All-drop (suc k) [] h = h
All-drop (suc k) (p ∷ pairs) h = All-drop k pairs h.1

module _ (source : StreamSource) (lag : ℕ) (supply : Supply source lag) (frame : List ℕ) where
  abbrev src : StreamSource
  src = counted source

  -- Idle, with no response pending, and a clear in the middle of the tile behind.
  pub record IsRestarted (total m : ℕ) (s : Sim src) : Type 0 where
    pub idle : IsIdle src s
    pub free : s.dut.read.rvalid_q ≡ false
    pub cleared : IsCleared source lag supply frame total m s

  drive-IsCleared :
      (f : LiteMaster → LiteMaster) {total m : ℕ} {s : Sim src}
      → IsCleared source lag supply frame total m s
      → IsCleared source lag supply frame total m (drive src f s)
  drive-IsCleared f h = record {
    paused = drive-IsPaused source lag supply frame f h.paused;
    no_clear = h.no_clear;
    holds_none = h.holds_none;
    no_acc = h.no_acc;
    no_skip = h.no_skip;
  }

  -- an assertion that a result reads 0
  pub expect-IsRestarted :
      (n addr : ℕ) {total m : ℕ} (s : Sim src)
      → rd_mux (ports src (drive src (present_read addr) s)) s.dut ≡ 0
      → IsRestarted total m s
      → (t : Sim src) × (expect (raw_bus src (suc (suc (suc n)))) addr 0 s ≡ (ok tt, t))
        × IsRestarted total m t
  unfolding expect rising_edge
  expect-IsRestarted n addr {total} {m} s zero_read h =
      let p = drive src (present_read addr) s in
      let s1 = rising_edge src p in
      let q = drive src drop_read s1 in
      let t = delivered src p in
      let n1 : NoWrite (ports src p) p.dut =
        (h.idle.running, h.idle.no_aw, h.idle.no_w, h.idle.aw_free, h.idle.w_free) in
      let (_, _, _, aw, w) = calm-ctrl (ports src p) p.dut n1 in
      let c1 =
        IsCleared-edge source lag supply frame {s = p} n1
          (drive-IsCleared (present_read addr) h.cleared) in
      let c2 =
        IsCleared-edge source lag supply frame {s = q}
          (h.idle.running, h.idle.no_aw, h.idle.no_w, aw, w) (drive-IsCleared drop_read c1) in
      let ends = raw_read_dword-ends src n addr s h.idle in
      let at_once = read_cycle-free src addr s h.free in
      let (same, idle, free) = (rw at_once at ends) in
      (
        t,
        bind-ok (raw_read_dword src (suc (suc (suc n))) addr) (λ got. lift (check (got == 0))) s t _
              same
            ∙ check-same _ 0 t zero_read,
        record { idle = idle; free = free; cleared = c2 },
      )

  -- what is left of the tile is underway, from zero
  pub restarted-IsUnderway :
      {total m : ℕ} {s : Sim src} (h : IsRestarted total m s)
      → let p = h.cleared.paused in
        let g = golden_from (pos 0) 0 (map operands (p.word ∷ p.words)) in
        IsUnderway src lag
          (counted-Supply source lag supply)
          false
          g.0
          g.1
          (m + length p.words + 2)
          s
  restarted-IsUnderway {total} {m} {s} h =
      let p = h.cleared.paused in
      record {
        idle = h.idle;
        no_clear = h.cleared.no_clear;
        en_is = p.off;
        ahead =
            running (m + length p.words + 2) p.slack p.word p.words s p.still_runs p.low
              p.counts.holds (pos 0) 0 h.cleared.holds_none refl (omega (arith, p.within));
      }
