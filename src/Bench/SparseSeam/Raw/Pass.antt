-- ===== src/Bench/SparseSeam/Raw/Pass.antt =====
-- The testbench's check of a tile passes on the wrapper itself, through RawAxiLite.
use mathlib.Core.Path.{ap₂}
use zynq_rtl_flow.Base.{
  ℕ, suc, ◌+◌, ◌*◌, ◌%◌, ◌^◌, ◌≤◌, ◌<◌, ==_refl, List, [], ◌∷◌, map, length, All, ◌≡◌, refl, sym,
  ap, ◌∙◌, arith, ok,
}
use zynq_rtl_flow.Base.Int.{ℤ, pos, ==ℤ_refl}
use zynq_rtl_flow.Words.{low_bits}
use zynq_rtl_flow.Golden.SparseMac.{acc_w, golden, golden_from, zip, to_signed}
use zynq_rtl_flow.Golden.SparseMac.Laws.{to_signed-low_bits}
use zynq_rtl_flow.Golden.Draws.Range.{IsPair}
use zynq_rtl_flow.Effects.{◌>>=◌, lift, return}
use zynq_rtl_flow.Effects.Laws.{bind-ok}
use zynq_rtl_flow.Rtl.Wrapper.Edges.{operands}
use zynq_rtl_flow.Bench.PeSeam.{check}
use zynq_rtl_flow.Bench.PeSeam.Correct.{golden_bounds}
use zynq_rtl_flow.Bench.SparseSeam.{
  reg_acc, reg_skip, pack_pair, start, send, await_done, read_acc, run_tile, check_tile,
}
use zynq_rtl_flow.Bench.SparseSeam.Golden.{map-operands, mod-small}
use zynq_rtl_flow.Bench.SparseSeam.Tile.{
  Polls-poll, results, behind_send, behind_start, compare_with,
}
use zynq_rtl_flow.Bench.SparseSeam.Raw.{
  StreamSource, Sim, ports, drive, present_read, raw_read_dword, raw_bus,
}
use zynq_rtl_flow.Bench.SparseSeam.Raw.Supply.{Supply}
use zynq_rtl_flow.Bench.SparseSeam.Raw.Reads.{
  IsPolling, behind_read, read-IsPolling, rd_mux-acc, rd_mux-skip,
}
use zynq_rtl_flow.Bench.SparseSeam.Raw.Polling.{bus_of, polls-pass}
use zynq_rtl_flow.Bench.SparseSeam.Raw.Check.{
  IsReady, complete-IsReady, started_from, queued, submitted-IsPolling,
}

pub short : (lag n : ℕ) → lag + n ≤ 19995 → n < 2 ^ 16
short lag n h = omega (arith, h)

pub length-pack : (pairs : List (ℤ × ℤ)) → length (map pack_pair pairs) ≡ length pairs
length-pack [] = refl
length-pack (p ∷ pairs) = ap suc (length-pack pairs)

pub first_of :
    (tile : List (ℤ × ℤ))
    → 0 < length tile
    → (p : ℤ × ℤ) × (pairs : List (ℤ × ℤ)) × (tile ≡ p ∷ pairs)
first_of [] h = absurd (omega (arith, h))
first_of (p ∷ pairs) h = (p, pairs, refl)

pub fits_polls :
    (lag : ℕ) (tile : List (ℤ × ℤ)) (p : ℤ × ℤ) (pairs : List (ℤ × ℤ))
    → tile ≡ p ∷ pairs
    → lag + length tile ≤ 19995
    → lag + length (map pack_pair pairs) + 4 ≤ 2 * 9999
fits_polls lag tile p pairs split h = omega (arith, h, ap length split, length-pack pairs)

module _ (source : StreamSource) (lag : ℕ) (supply : Supply source lag) where
  -- the results of a completed tile, as the testbench reads them
  pub acc-read :
      (n : ℕ) {acc : ℤ} {skip : ℕ} (s : Sim source)
      → IsPolling source lag supply acc skip 0 s
      → (read_acc (bus_of source lag supply n) s
          ≡ (ok (to_signed (pos (low_bits 32 acc)) acc_w), behind_read source lag supply reg_acc s))
        × IsPolling source lag supply acc skip 0 (behind_read source lag supply reg_acc s)
  unfolding read_acc
  acc-read n {acc} {skip} s h =
      let (read, next) = read-IsPolling source lag supply n reg_acc s h in
      let t = behind_read source lag supply reg_acc s in
      let p = ports source (drive source (present_read reg_acc) s) in
      let (_, acc_is, _) = complete-IsReady source lag supply h.idle h.calm h.ahead in
      (
        bind-ok (raw_read_dword source (suc (suc (suc n))) reg_acc)
              (λ raw. return (to_signed (pos raw) acc_w)) s t _ read
            ∙ ap (λ x. (ok (to_signed (pos x) acc_w), t)) (rd_mux-acc p s.dut refl ∙ acc_is),
        next,
      )

  pub skip-read :
      (n : ℕ) {acc : ℤ} {skip : ℕ} (s : Sim source)
      → IsPolling source lag supply acc skip 0 s
      → (raw_read_dword source (suc (suc (suc n))) reg_skip s
          ≡ (ok (skip % 2 ^ 16), behind_read source lag supply reg_skip s))
        × IsReady source lag supply (behind_read source lag supply reg_skip s)
  skip-read n {acc} {skip} s h =
      let (read, next) = read-IsPolling source lag supply n reg_skip s h in
      let t = behind_read source lag supply reg_skip s in
      let p = ports source (drive source (present_read reg_skip) s) in
      let (_, _, skip_is) = complete-IsReady source lag supply h.idle h.calm h.ahead in
      let (ready, _, _) = complete-IsReady source lag supply next.idle next.calm next.ahead in
      (read ∙ ap (λ x. (ok x, t)) (rd_mux-skip p s.dut refl ∙ skip_is), ready)

  results-read :
      (n : ℕ) {acc : ℤ} {skip : ℕ} (s : Sim source)
      → IsPolling source lag supply acc skip 0 s
      → (t : Sim source) × (results (bus_of source lag supply n) s
          ≡ (ok (to_signed (pos (low_bits 32 acc)) acc_w, skip % 2 ^ 16), t))
        × IsReady source lag supply t
  results-read n {acc} {skip} s h =
      let bus = bus_of source lag supply n in
      let rounds = suc (suc (suc n)) in
      let t = behind_read source lag supply reg_acc s in
      let u = behind_read source lag supply reg_skip t in
      let value = to_signed (pos (low_bits 32 acc)) acc_w in
      let (read, next) = acc-read n s h in
      let (read', ready) = skip-read n t next in
      (
        u,
        bind-ok (read_acc bus) (λ a. raw_read_dword source rounds reg_skip >>= λ k. return (a, k)) s
              t value read
            ∙ bind-ok (raw_read_dword source rounds reg_skip) (λ k. return (value, k)) t u _ read',
        ready,
      )

  compare_with-same :
      (n : ℕ) (exp : ℤ × ℕ) (s : Sim source)
      → compare_with (bus_of source lag supply n) exp exp s ≡ (ok tt, s)
  compare_with-same n exp s =
      ap₂ (λ x y. (lift (check x) >>= λ _. lift (check y)) s) (==ℤ_refl exp.0) (==_refl exp.1)

  -- from START to the two results
  run_tile-passes :
      (n : ℕ) (weights acts : List ℤ) (word : ℕ) (words : List ℕ) (s : Sim source)
      → map pack_pair (zip weights acts) ≡ word ∷ words
      → lag + length words + 4 ≤ 2 * 9999
      → IsReady source lag supply s
      → let g = golden_from (pos 0) 0 (map operands (word ∷ words)) in
        (t : Sim source) × (run_tile (bus_of source lag supply n) weights acts s
          ≡ (ok (to_signed (pos (low_bits 32 g.0)) acc_w, g.1 % 2 ^ 16), t))
        × IsReady source lag supply t
  unfolding run_tile start send await_done
  run_tile-passes n weights acts word words s frame enough r =
      let bus = bus_of source lag supply n in
      let t1 = started_from source lag supply s in
      let t2 = queued source lag supply (word ∷ words) t1 in
      let (begins, h) = submitted-IsPolling source lag supply n word words s r in
      let (t3, polls, done) = polls-pass source lag supply n 9999 t2 enough h in
      let (t4, read, ready) = results-read n t3 done in
      (
        t4,
        bind-ok (start bus) (λ _. behind_start bus weights acts) s t1 tt begins
            ∙ (bind-ok (send bus weights acts) (λ _. behind_send bus) t1 t2 tt
                  (ap (λ x. (ok tt, queued source lag supply x t1)) frame)
                ∙ (bind-ok (await_done bus) (λ _. results bus) t2 t3 tt (Polls-poll bus polls)
                    ∙ read)),
        ready,
      )

  -- The results of the beats that a tile is packed into are the golden results of the tile.
  pub packed-golden :
      (weights acts : List ℤ) (word : ℕ) (words : List ℕ)
      → map pack_pair (zip weights acts) ≡ word ∷ words
      → All IsPair (zip weights acts)
      → length (zip weights acts) < 2 ^ 16
      → let g = golden_from (pos 0) 0 (map operands (word ∷ words)) in
        (to_signed (pos (low_bits 32 g.0)) acc_w ≡ (golden weights acts).0)
        × (g.1 % 2 ^ 16 ≡ (golden weights acts).1)
  unfolding golden
  packed-golden weights acts word words frame fits short =
      let same =
        ap (λ x. golden_from (pos 0) 0 (map operands x)) (sym frame)
        ∙ ap (golden_from (pos 0) 0) (map-operands (zip weights acts) fits) in
      let bounds = golden_bounds weights acts fits short in
      (
        ap (λ g. to_signed (pos (low_bits 32 g.0)) acc_w) same ∙ to_signed-low_bits 31 _ bounds.0,
        ap (λ g. g.1 % 2 ^ 16) same ∙ mod-small _ bounds.1,
      )

  run_tile-golden :
      (n : ℕ) (weights acts : List ℤ) (p : ℤ × ℤ) (pairs : List (ℤ × ℤ)) (s : Sim source)
      → zip weights acts ≡ p ∷ pairs
      → All IsPair (zip weights acts)
      → lag + length (zip weights acts) ≤ 19995
      → IsReady source lag supply s
      → (t : Sim source) × (run_tile (bus_of source lag supply n) weights acts s
          ≡ (ok (golden weights acts), t))
        × IsReady source lag supply t
  run_tile-golden n weights acts p pairs s split fits enough r =
      let frame = ap (map pack_pair) split in
      let words = map pack_pair pairs in
      let (t, runs, ready) =
        run_tile-passes n weights acts (pack_pair p) words s frame
          (fits_polls lag (zip weights acts) p pairs split enough) r in
      let (acc_is, skip_is) =
        packed-golden weights acts (pack_pair p) words frame fits
          (short lag (length (zip weights acts)) enough) in
      (t, runs ∙ ap₂ (λ x y. (ok (x, y), t)) acc_is skip_is, ready)

  -- On the wrapper, through RawAxiLite, the check of a tile of signed bytes passes and leaves the
  -- accelerator ready for the next one, if the tile has a pair at least and the source supplies it
  -- with at most so many stalls that pairs and stalls together are at most 19995: then DONE rises
  -- within POLL_LIMIT polls.
  pub check_tile-passes :
      (n : ℕ) (weights acts : List ℤ) (s : Sim source)
      → All IsPair (zip weights acts)
      → 0 < length (zip weights acts)
      → lag + length (zip weights acts) ≤ 19995
      → IsReady source lag supply s
      → (t : Sim source) × (check_tile (raw_bus source (suc (suc (suc n)))) weights acts s
          ≡ (ok tt, t))
        × IsReady source lag supply t
  unfolding check_tile
  check_tile-passes n weights acts s fits some enough r =
      let bus = bus_of source lag supply n in
      let exp = golden weights acts in
      let (p, pairs, split) = first_of (zip weights acts) some in
      let (t, runs, ready) = run_tile-golden n weights acts p pairs s split fits enough r in
      (
        t,
        bind-ok (run_tile bus weights acts) (compare_with bus exp) s t exp runs
            ∙ compare_with-same n exp t,
        ready,
      )
