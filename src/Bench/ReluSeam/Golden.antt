-- ===== src/Bench/ReluSeam/Golden.antt =====
-- The testbench of the ReLU accelerator meets its wrapper: a tile that it streams passes its checks.
use mathlib.Core.Path.{ap₂}
use zynq_rtl_flow.Base.{
  ℕ, suc, ◌-◌, ◌^◌, ◌<◌, ==_refl, List, [], ◌∷◌, ◌++◌, map, length, All, true, ◌&&◌, ◌≡◌, refl, sym,
  ap, ◌∙◌, arith, ok, replicate,
}
use zynq_rtl_flow.Base.Int.{ℤ, pos, ==ℤ_refl}
use zynq_rtl_flow.Words.{low_bits, signed, IsSigned}
use zynq_rtl_flow.Words.Laws
use zynq_rtl_flow.Golden.Relu.{data_w, to_signed, leaky, golden}
use zynq_rtl_flow.Effects.{lift, return}
use zynq_rtl_flow.Effects.Laws.{bind-ok}
use zynq_rtl_flow.Rtl.ReluUnit.{relu_unit}
use zynq_rtl_flow.Rtl.ReluUnit.Golden.{relu_unit-leaky, leaky_fits}
use zynq_rtl_flow.Rtl.ReluAxi.{ReluPorts, ReluAxi, tile_done}
use zynq_rtl_flow.Rtl.ReluAxi.Stream.{OutBeat, Flow, activate, handed}
use zynq_rtl_flow.Rtl.ReluAxi.Accounting.{AtRest}
use zynq_rtl_flow.Rtl.ReluAxi.Tile.{Flow-handed}
use zynq_rtl_flow.Rtl.ReluAxi.Golden.{frame}
use zynq_rtl_flow.Bench.PeSeam.{check}
use zynq_rtl_flow.Bench.ReluSeam.{Masters, raw_beats, signed_beats, send_tile, recv_tile, run_tile}
use zynq_rtl_flow.Bench.ReluSeam.Monitor.{lasts, record_last, watch, record_last-watch}
use zynq_rtl_flow.Bench.ReluSeam.Cases.{same_list, same_flags, one_last, expect_tile}

same_list_refl : (xs : List ℤ) → same_list xs xs ≡ true
unfolding same_list
same_list_refl [] = refl
same_list_refl (x ∷ xs) = ap₂ ◌&&◌ (==ℤ_refl x) (same_list_refl xs)

same_flags_refl : (xs : List ℕ) → same_flags xs xs ≡ true
unfolding same_flags
same_flags_refl [] = refl
same_flags_refl (x ∷ xs) = ap₂ ◌&&◌ (==_refl x) (same_flags_refl xs)

to_signed-byte : (v : ℕ) → v < 2 ^ 8 → to_signed (pos v) data_w ≡ signed 8 v
unfolding to_signed low_bits signed
to_signed-byte v h = ground arith

-- A beat of the wrapper reads as the golden value.
beat-golden :
    (x : ℤ) (slope : ℕ)
    → IsSigned 8 x
    → slope < 256
    → to_signed (pos (relu_unit (low_bits 8 x) slope)) data_w ≡ leaky slope x
beat-golden x slope h s =
    ap (λ v. to_signed (pos v) data_w) (relu_unit-leaky x slope h s)
    ∙ (to_signed-byte (low_bits 8 (leaky slope x)) (Laws.low_bits_lt 8 (leaky slope x))
        ∙ Laws.signed-low_bits8 (leaky slope x) (leaky_fits x slope h s))

-- the bytes of the beats
abbrev pub bytes : List OutBeat → List ℕ
bytes outs = map (λ b. b.0) outs

signed_beats-golden :
    (slope : ℕ) (tile : List ℤ)
    → slope < 256
    → All (IsSigned 8) tile
    → signed_beats (bytes (map activate (frame slope tile))) ≡ golden tile slope
unfolding signed_beats frame golden
signed_beats-golden slope [] s h = refl
signed_beats-golden slope (x ∷ []) s h = ap (λ y. y ∷ []) (beat-golden x slope h.0 s)
signed_beats-golden slope (x ∷ y ∷ tile) s h =
    ap₂ ◌∷◌ (beat-golden x slope h.0 s) (signed_beats-golden slope (y ∷ tile) s h.1)

module _ (masters : Masters) where
  open masters use {State, source_send, sink_recv}

  received :
      (tile : List ℤ) (raw : List ℕ) (s t u : State)
      → source_send (raw_beats tile) s ≡ (ok tt, t)
      → sink_recv t ≡ (ok raw, u)
      → run_tile masters tile s ≡ (ok (signed_beats raw), u)
  unfolding run_tile send_tile recv_tile
  received tile raw s t u sends receives =
      bind-ok (send_tile masters tile) (λ _. recv_tile masters) s t tt sends
      ∙ bind-ok sink_recv (λ tdata. return (signed_beats tdata)) t u raw receives

  -- The check of a tile passes if the wrapper, from rest and with any stalls, takes the beats of the
  -- tile under the slope it is checked for and the sink returns the bytes it hands over: at least one
  -- activation, all of them signed bytes, and a slope of eight bits.
  pub expect_tile-passes :
      (p : ReluPorts) (w v : ReluAxi) (slope : ℕ) (tile : List ℤ) (outs : List OutBeat)
      (s t u : State)
      → All (IsSigned 8) tile
      → slope < 256
      → AtRest w
      → Flow w (frame slope tile) outs v
      → tile_done p v ≡ true
      → source_send (raw_beats tile) s ≡ (ok tt, t)
      → sink_recv t ≡ (ok (bytes (outs ++ handed p v)), u)
      → expect_tile masters tile slope s ≡ (ok tt, u)
  unfolding expect_tile
  expect_tile-passes p w v slope tile outs s t u h sl rest flow d sends receives =
      let exact =
        ap (λ x. signed_beats (bytes x)) (Flow-handed p w v (frame slope tile) outs rest flow d)
        ∙ signed_beats-golden slope tile sl h in
      bind-ok (run_tile masters tile) (λ got. lift (check (same_list got (golden tile slope)))) s u
        (signed_beats (bytes (outs ++ handed p v)))
        (received tile (bytes (outs ++ handed p v)) s t u sends receives)
      ∙ ap (λ b. (check b, u))
          (ap (λ x. same_list x (golden tile slope)) exact ∙ same_list_refl (golden tile slope))

less_one : (n : ℕ) → suc n - 1 ≡ n
less_one n = omega arith

one_last-suc : (n : ℕ) → one_last (suc (suc n)) ≡ 0 ∷ one_last (suc n)
unfolding one_last
one_last-suc n =
    ap (λ k. replicate k 0 ++ 1 ∷ []) (less_one (suc n))
    ∙ ap (λ k. 0 ∷ (replicate k 0 ++ 1 ∷ [])) (sym (less_one n))

-- the flags of a tile
lasts-frame :
    (slope : ℕ) (x : ℤ) (rest : List ℤ)
    → lasts (map activate (frame slope (x ∷ rest))) ≡ one_last (length (x ∷ rest))
unfolding one_last frame
lasts-frame slope x [] = refl
lasts-frame slope x (y ∷ rest) =
    ap (◌∷◌ 0) (lasts-frame slope y rest) ∙ sym (one_last-suc (length rest))

-- LastMonitor passes the check of test_tlast_marks_the_tile on the wrapper: over a tile of at least
-- one beat, from rest and with any stalls, it has recorded 0 for every beat but the last and 1 for it.
pub monitor-one_last :
    (p : ReluPorts) (w v : ReluAxi) (slope : ℕ) (x : ℤ) (rest : List ℤ) (outs : List OutBeat)
    → AtRest w
    → (flow : Flow w (frame slope (x ∷ rest)) outs v) → tile_done p v ≡ true
    → same_flags (record_last p v (watch flow [])) (one_last (length (x ∷ rest))) ≡ true
monitor-one_last p w v slope x rest outs idle flow d =
    let exact =
      record_last-watch p flow
      ∙ (ap lasts (Flow-handed p w v (frame slope (x ∷ rest)) outs idle flow d)
          ∙ lasts-frame slope x rest) in
    ap (λ f. same_flags f (one_last (length (x ∷ rest)))) exact
    ∙ same_flags_refl (one_last (length (x ∷ rest)))
