-- ===== src/Bench/SparseSeam/Golden.antt =====
-- The testbench's packing meets the wrapper's ports: a tile that it streams ends in the golden
-- results, as it reads them.
use mathlib.Core.Path.{ap₂}
use zynq_rtl_flow.Base.{
  ℕ, ◌+◌, ◌*◌, ◌/◌, ◌%◌, ◌^◌, ◌<◌, List, [], ◌∷◌, map, ◌≡◌, true, false, refl, ap, ◌∙◌, arith, All,
  length,
}
use zynq_rtl_flow.Base.Int.{ℤ, pos}
use zynq_rtl_flow.Words.{low_bits}
use zynq_rtl_flow.Words.Laws
use zynq_rtl_flow.Golden.SparseMac.{acc_w, golden, zip, to_signed}
use zynq_rtl_flow.Golden.SparseMac.Laws.{to_signed-low_bits}
use zynq_rtl_flow.Golden.Draws.Range.{IsPair}
use zynq_rtl_flow.Rtl.Wrapper.{s_idle, Ports, Wrapper, aclk_edge}
use zynq_rtl_flow.Rtl.Wrapper.Edges.{Quiet, operands}
use zynq_rtl_flow.Rtl.Wrapper.Tile.{Feeds, Throughout, tile_lem}
use zynq_rtl_flow.Bench.PeSeam.Correct.{golden_bounds}
use zynq_rtl_flow.Bench.SparseSeam.{pack_pair}

lanes :
    (w a : ℕ)
    → w < 2 ^ 8
    → a < 2 ^ 8
    → ((a * 2 ^ 8 + w) % 2 ^ 8 ≡ w) × ((a * 2 ^ 8 + w) / 2 ^ 8 % 2 ^ 8 ≡ a)
lanes w a lw la = (omega arith, omega arith)

operands-pack_pair : (p : ℤ × ℤ) → IsPair p → operands (pack_pair p) ≡ p
unfolding pack_pair
operands-pack_pair (w, a) h =
    let (lo, hi) =
      lanes (low_bits 8 w) (low_bits 8 a) (Laws.low_bits_lt 8 w) (Laws.low_bits_lt 8 a) in
    rw (lo, hi, Laws.signed-low_bits8 w h.0, Laws.signed-low_bits8 a h.1) refl

pub map-operands :
    (pairs : List (ℤ × ℤ)) → All IsPair pairs → map operands (map pack_pair pairs) ≡ pairs
map-operands [] h = refl
map-operands (p ∷ pairs) h = ap₂ ◌∷◌ (operands-pack_pair p h.0) (map-operands pairs h.1)

pub mod-small : (n : ℕ) → n < 2 ^ 16 → n % 2 ^ 16 ≡ n
mod-small n h = omega arith

-- Streamed as the testbench packs it, with any stalls, a tile of fewer than 65536 pairs of signed
-- bytes ends with DONE set, ACC reading as the golden accumulator and SKIP the golden skip count;
-- DONE is low behind the edge that takes START and in every state from the first in which a beat may
-- be taken to the one that latches. Reset and the explicit clear stay away meanwhile.
pub tile-golden :
    (p0 p1 p2 : Ports) (w v : Wrapper) (weights acts : List ℤ)
    → All IsPair (zip weights acts)
    → length (zip weights acts) < 2 ^ 16
    → Quiet p0 w
    → w.state ≡ s_idle
    → w.ctrl.start_pulse ≡ true
    → Quiet p1 (aclk_edge p0 w)
    → (feeds : Feeds (aclk_edge p1 (aclk_edge p0 w)) (map pack_pair (zip weights acts)) v)
    → Quiet p2 v
    → ((aclk_edge p0 w).done_q ≡ false)
      × Throughout (λ u. u.done_q ≡ false) feeds
      × ((aclk_edge p2 v).done_q ≡ true)
      × (to_signed (pos (aclk_edge p2 v).acc_q) acc_w ≡ (golden weights acts).0)
      × ((aclk_edge p2 v).skip_q ≡ (golden weights acts).1)
unfolding golden
tile-golden p0 p1 p2 w v weights acts pairs short q0 s start q1 feeds q2 =
    let (low, still, _, done, acc, skip) =
      tile_lem p0 p1 p2 w v (map pack_pair (zip weights acts)) q0 s start q1 feeds q2 in
    let same = map-operands (zip weights acts) pairs in
    let fits = golden_bounds weights acts pairs short in
    (
      low,
      still,
      done,
      ap (λ x. to_signed (pos x) acc_w) (rw same at acc) ∙ to_signed-low_bits 31 _ fits.0,
      (rw same at skip) ∙ mod-small _ fits.1,
    )
