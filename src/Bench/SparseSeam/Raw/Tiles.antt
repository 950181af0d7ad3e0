-- ===== src/Bench/SparseSeam/Raw/Tiles.antt =====
-- From `bring_up` to the last of the testbench's tiles, on the wrapper itself through RawAxiLite.
use zynq_rtl_flow.Base.{ℕ, zero, suc, ◌+◌, ◌*◌, ◌≤◌, [], ◌≡◌, refl, ◌∙◌, arith, ok, false}
use zynq_rtl_flow.Golden.Rng.{Rng}
use zynq_rtl_flow.Golden.Draws.{gen_pairs}
use zynq_rtl_flow.Golden.Draws.Range.{gen_pairs_fits}
use zynq_rtl_flow.Effects.Laws.{bind-ok}
use zynq_rtl_flow.Bench.SparseSeam.{check_tile}
use zynq_rtl_flow.Bench.SparseSeam.Cases.{tiles_from, test_back_to_back_tiles}
use zynq_rtl_flow.Bench.SparseSeam.Raw.{StreamSource, Sim, rising_edge, released, raw_bus}
use zynq_rtl_flow.Bench.SparseSeam.Raw.Cases.{rising_edges, bring_up}
use zynq_rtl_flow.Bench.SparseSeam.Raw.Registers.{bring_up-IsReset}
use zynq_rtl_flow.Bench.SparseSeam.Raw.Supply.{Supply}
use zynq_rtl_flow.Bench.SparseSeam.Raw.Check.{IsReady}
use zynq_rtl_flow.Bench.SparseSeam.Raw.Pass.{check_tile-passes}

module _ (source : StreamSource) (lag : ℕ) (supply : Supply source lag) where
  open supply use {Holds, rests}

  edges-Holds :
      (k d : ℕ) (s : Sim source) → Holds d [] s.src → Holds d [] (rising_edges source k s).src
  unfolding rising_edges
  edges-Holds zero d s h = h
  edges-Holds (suc k) d s h = edges-Holds k d (rising_edge source s) ((rests d s.src h).1 _)

  pub bring_up-IsReady :
      (d : ℕ) (s : Sim source) → Holds d [] s.src → IsReady source lag supply (bring_up source s)
  unfolding bring_up
  bring_up-IsReady d s h =
      let r = bring_up-IsReset source s in
      let start = record s { aresetn = false; lite = released } in
      record {
        idle = r.idle;
        no_tile = r.no_tile;
        no_start = r.no_start;
        no_clear = r.no_clear;
        enabled = r.enabled;
        slack = d;
        empty = (rests d (rising_edges source 5 start).src (edges-Holds 5 d start h)).1 _;
      }

  tiles_from-pass :
      (n : ℕ) (rng : Rng) (i k : ℕ) (s : Sim source)
      → i + k ≤ 4
      → lag ≤ 19900
      → IsReady source lag supply s
      → (t : Sim source) × (tiles_from (raw_bus source (suc (suc (suc n)))) rng i k s ≡ (ok tt, t))
        × IsReady source lag supply t
  unfolding tiles_from
  tiles_from-pass n rng i zero s few short r = (s, refl, r)
  tiles_from-pass n rng i (suc k) s few short r =
      let bus = raw_bus source (suc (suc (suc n))) in
      let size = 24 + 8 * i in
      let tile = gen_pairs rng size (10 * i) (10 + i) in
      let (fits, length_is) = gen_pairs_fits rng size (10 * i) (10 + i) in
      let (t, passes, ready) =
        check_tile-passes source lag supply n tile.0 tile.1 s fits (omega (arith, length_is))
          (omega (arith, length_is, few, short)) r in
      let (u, rest, ready') = tiles_from-pass n rng (i + 1) k t (omega (arith, few)) short ready in
      (
        u,
        bind-ok (check_tile bus tile.0 tile.1) (λ _. tiles_from bus rng (i + 1) k) s t tt passes
            ∙ rest,
        ready',
      )

  -- Whatever the simulation starts in, test_back_to_back_tiles passes on the wrapper: behind
  -- `bring_up` with RawAxiLite its four tiles pass the check one after the other, for any draws of the
  -- generator and a source that stalls at most 19900 cycles in a tile and holds nothing at first.
  pub test_back_to_back_tiles-passes :
      (n : ℕ) (rng : Rng) (d : ℕ) (s : Sim source)
      → lag ≤ 19900
      → Holds d [] s.src
      → (t : Sim source) × (test_back_to_back_tiles
            (raw_bus source (suc (suc (suc n))))
            rng
            (bring_up source s)
          ≡ (ok tt, t))
        × IsReady source lag supply t
  unfolding test_back_to_back_tiles
  test_back_to_back_tiles-passes n rng d s short h =
      tiles_from-pass n rng 0 4 (bring_up source s) (omega arith) short (bring_up-IsReady d s h)
