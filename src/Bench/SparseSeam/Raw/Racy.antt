-- ===== src/Bench/SparseSeam/Raw/Racy.antt =====
-- The test that reads STATUS while the write of START is still landing passes on the wrapper itself.
use zynq_rtl_flow.Base.{
  ℕ, suc, ◌+◌, ◌%◌, ◌^◌, ◌≤◌, ◌<◌, ◌==◌, ==_refl, List, [], ◌∷◌, map, length, All, false, ◌≡◌, ap,
  ◌∙◌, arith, ok,
}
use zynq_rtl_flow.Base.Int.{ℤ, pos, ◌==ℤ◌, ==ℤ_refl}
use zynq_rtl_flow.Words.{low_bits}
use zynq_rtl_flow.Golden.Rng.{Rng}
use zynq_rtl_flow.Golden.SparseMac.{acc_w, golden, golden_from, zip, to_signed}
use zynq_rtl_flow.Golden.Draws.{gen_pairs}
use zynq_rtl_flow.Golden.Draws.Range.{IsPair, gen_pairs_fits}
use zynq_rtl_flow.Effects.{M, ◌>>=◌, lift}
use zynq_rtl_flow.Effects.Laws.{bind-ok}
use zynq_rtl_flow.Rtl.Wrapper.Edges.{operands}
use zynq_rtl_flow.Bench.PeSeam.{check}
use zynq_rtl_flow.Bench.SparseSeam.{
  reg_acc, reg_skip, pack_pair, send, await_done, read_acc, check_tile,
}
use zynq_rtl_flow.Bench.SparseSeam.Cases.{expect}
use zynq_rtl_flow.Bench.SparseSeam.Tile.{Polls-poll}
use zynq_rtl_flow.Bench.SparseSeam.Raw.{
  StreamSource, Sim, drive, rising_edge, present_read, present_write, raw_read_dword,
}
use zynq_rtl_flow.Rtl.Wrapper.{aclk_edge}
use zynq_rtl_flow.Bench.SparseSeam.Raw.Steps.{IsIdle, rising_edge-IsIdle}
use zynq_rtl_flow.Bench.SparseSeam.Raw.Ends.{read_cycle, delivered, raw_read_dword-ends}
use zynq_rtl_flow.Bench.SparseSeam.Raw.Race.{race_cycle, raced}
use zynq_rtl_flow.Bench.SparseSeam.Raw.Cases.{
  bring_up, racing_reads, test_status_never_reports_the_previous_tile_after_start,
}
use zynq_rtl_flow.Bench.SparseSeam.Raw.InFlight.{Silence, IsStill, racing_reads-pass}
use zynq_rtl_flow.Bench.SparseSeam.Raw.Supply.{Supply, IsCalm}
use zynq_rtl_flow.Bench.SparseSeam.Raw.Reads.{IsPolling, behind_read}
use zynq_rtl_flow.Bench.SparseSeam.Raw.Polling.{bus_of, polls-pass}
use zynq_rtl_flow.Bench.SparseSeam.Raw.Check.{IsReady, queued, queued-IsIdle}
use zynq_rtl_flow.Bench.SparseSeam.Raw.Pass.{
  short, first_of, fits_polls, acc-read, skip-read, packed-golden, check_tile-passes,
}
use zynq_rtl_flow.Bench.SparseSeam.Raw.Tiles.{bring_up-IsReady}
use zynq_rtl_flow.Bench.SparseSeam.Raw.Awaits.{Awaits, Waits, read-Waits, queued-Ahead, raced-Waits}

module _ (source : StreamSource) (lag : ℕ) (supply : Supply source lag) where
  open supply use {Holds, rests}

  -- a source that holds nothing is silent
  abbrev silent : Silence source
  silent = record {
    IsQuiet = λ x. (d : ℕ) × Holds d [] x;
    quiet-offered = λ x h. (rests h.0 x h.1).0;
    quiet-advance = λ ready x h. (h.0, (rests h.0 x h.1).1 ready);
  }

  ready-IsStill : (s : Sim source) → IsReady source lag supply s → IsStill source silent s
  ready-IsStill s r = record {
    running = r.idle.running;
    well_formed = ground (arith, r.no_tile);
    not_latching = λ e. ground (arith, r.no_tile);
    quiet = (r.slack, r.empty);
  }

  -- the comparison of both results, behind the polls
  abbrev compared : ℕ → ℤ × ℕ → M (Sim source) (Unit {0})
  compared n exp =
      let bus = bus_of source lag supply n in
      read_acc bus >>= λ acc. lift (check (acc ==ℤ exp.0)) >>= λ _. expect bus reg_skip exp.1

  compared-passes :
      (n : ℕ) {acc : ℤ} {skip : ℕ} (exp : ℤ × ℕ) (s : Sim source)
      → to_signed (pos (low_bits 32 acc)) acc_w ≡ exp.0
      → skip % 2 ^ 16 ≡ exp.1
      → IsPolling source lag supply acc skip 0 s
      → (t : Sim source) × (compared n exp s ≡ (ok tt, t)) × IsReady source lag supply t
  unfolding expect
  compared-passes n {acc} {skip} exp s acc_is skip_is h =
      let bus = bus_of source lag supply n in
      let t = behind_read source lag supply reg_acc s in
      let u = behind_read source lag supply reg_skip t in
      let (read, next) = acc-read source lag supply n s h in
      let (read', ready) = skip-read source lag supply n t next in
      (
        u,
        bind-ok (read_acc bus)
              (λ acc. lift (check (acc ==ℤ exp.0)) >>= λ _. expect bus reg_skip exp.1) s t exp.0
              (read ∙ ap (λ x. (ok x, t)) acc_is)
            ∙ (bind-ok (lift (check (exp.0 ==ℤ exp.0))) (λ _. expect bus reg_skip exp.1) t t tt
                  (ap (λ b. (check b, t)) (==ℤ_refl exp.0))
                ∙ (bind-ok (raw_read_dword source (suc (suc (suc n))) reg_skip)
                      (λ got. lift (check (got == exp.1))) t u exp.1
                      (read' ∙ ap (λ x. (ok x, u)) skip_is)
                    ∙ ap (λ b. (check b, u)) (==_refl exp.1))),
        ready,
      )

  -- a started tile waits, and no response is pending
  abbrev Kept : Sim source → Type 0
  Kept s = Waits source lag supply s × (s.dut.read.rvalid_q ≡ false)

  read-Kept :
      (s : Sim source) → IsIdle source s → Kept s → Kept (delivered source (read_cycle source 8 s))
  read-Kept s i (w, _) =
      let (_, _, free) = raw_read_dword-ends source 0 8 s i in
      (read-Waits source lag supply s i w, free)

  raced-free :
      (s : Sim source)
      → IsIdle source s
      → s.dut.read.rvalid_q ≡ false
      → (raced source
          (drive source (λ m. present_read 8 (present_write 4 5 m)) s)).dut.read.rvalid_q
        ≡ false
  unfolding rising_edge aclk_edge
  raced-free s i q = ground arith

  raced-Kept :
      (s : Sim source)
      → IsReady source lag supply s
      → Kept (raced source (race_cycle source 4 5 8 s))
  raced-Kept s r =
      let (j, _, q) = rising_edge-IsIdle source s r.idle in
      (raced-Waits source lag supply s r, raced-free (rising_edge source s) j q)

  queued-IsPolling :
      (word : ℕ) (words : List ℕ) (s : Sim source)
      → IsIdle source s
      → s.dut.read.rvalid_q ≡ false
      → IsCalm source lag supply s
      → Awaits source lag supply s
      → let g = golden_from (pos 0) 0 (map operands (word ∷ words)) in
        IsPolling source lag supply g.0 g.1
          (lag + length words + 4)
          (queued source lag supply (word ∷ words) s)
  queued-IsPolling word words s i free c waits = record {
    idle = queued-IsIdle source lag supply (word ∷ words) s i;
    free = free;
    calm = record { no_write = c.no_write; no_clear = c.no_clear; enabled = c.enabled };
    ahead = queued-Ahead source lag supply word words waits;
  }

  -- the second tile of the test, behind the racing reads
  abbrev behind_racing : ℕ → List ℤ → List ℤ → M (Sim source) (Unit {0})
  behind_racing n weights acts =
      let bus = bus_of source lag supply n in
      send bus weights acts >>= λ _. await_done bus >>= λ _. compared n (golden weights acts)

  second-passes :
      (n : ℕ) (weights acts : List ℤ) (s : Sim source)
      → All IsPair (zip weights acts)
      → 0 < length (zip weights acts)
      → lag + length (zip weights acts) ≤ 19995
      → IsIdle source s
      → Kept s
      → (t : Sim source) × (behind_racing n weights acts s ≡ (ok tt, t))
        × IsReady source lag supply t
  unfolding send await_done
  second-passes n weights acts s fits some enough i ((c, waits), free) =
      let bus = bus_of source lag supply n in
      let (p, pairs, split) = first_of (zip weights acts) some in
      let frame = ap (map pack_pair) split in
      let words = map pack_pair pairs in
      let u = queued source lag supply (pack_pair p ∷ words) s in
      let h = queued-IsPolling (pack_pair p) words s i free c waits in
      let (v, polls, done) =
        polls-pass source lag supply n 9999 u
          (fits_polls lag (zip weights acts) p pairs split enough) h in
      let (acc_is, skip_is) =
        packed-golden source lag supply weights acts (pack_pair p) words frame fits
          (short lag (length (zip weights acts)) enough) in
      let exp = golden weights acts in
      let (t, passes, ready) = compared-passes n exp v acc_is skip_is done in
      (
        t,
        bind-ok (send bus weights acts) (λ _. await_done bus >>= λ _. compared n exp) s u tt
              (ap (λ x. (ok tt, queued source lag supply x s)) frame)
            ∙ (bind-ok (await_done bus) (λ _. compared n exp) u v tt (Polls-poll bus polls)
                ∙ passes),
        ready,
      )

  -- Whatever the simulation starts in, test_status_never_reports_the_previous_tile_after_start passes
  -- on the wrapper behind `bring_up`: a first tile passes its check; the STATUS read sampled with the
  -- write of START and the eight reads behind it report a tile in flight; and the second tile, sent
  -- only then, ends in its golden results. The source holds nothing at first and stalls at most 19900
  -- cycles in a tile.
  pub racy_test-passes :
      (n : ℕ) (rng : Rng) (d : ℕ) (s : Sim source)
      → lag ≤ 19900
      → Holds d [] s.src
      → (t : Sim source) × (test_status_never_reports_the_previous_tile_after_start source
            (suc (suc (suc n)))
            rng
            (bring_up source s)
          ≡ (ok tt, t))
        × IsReady source lag supply t
  unfolding test_status_never_reports_the_previous_tile_after_start
  racy_test-passes n rng d s few h =
      let bus = bus_of source lag supply n in
      let first = gen_pairs rng 16 20 60 in
      let second = gen_pairs rng 32 50 61 in
      let (fits, size) = gen_pairs_fits rng 16 20 60 in
      let (fits', size') = gen_pairs_fits rng 32 50 61 in
      let s0 = bring_up source s in
      let (s1, passes, r) =
        check_tile-passes source lag supply n first.0 first.1 s0 fits (omega (arith, size))
          (omega (arith, size, few)) (bring_up-IsReady source lag supply d s h) in
      let (s2, races, i, _, kept) =
        racing_reads-pass source silent Kept n s1 read-Kept r.idle (ready-IsStill s1 r)
          (raced-Kept s1 r) in
      let (s3, ends, ready) =
        second-passes n second.0 second.1 s2 fits' (omega (arith, size'))
          (omega (arith, size', few)) i kept in
      let last = behind_racing n second.0 second.1 in
      (
        s3,
        bind-ok (check_tile bus first.0 first.1)
              (λ _. racing_reads source (suc (suc (suc n))) >>= λ _. last) s0 s1 tt passes
            ∙ (bind-ok (racing_reads source (suc (suc (suc n)))) (λ _. last) s1 s2 tt races ∙ ends),
        ready,
      )
