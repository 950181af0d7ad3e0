-- ===== src/RunTile/Runners/Filter.antt =====
-- `run_relu` on a device whose data path is relu_unit.
use mathlib.Core.Path.{subst}
use zynq_rtl_flow.Base.{
  ℕ, suc, ◌+◌, ◌<◌, ◌==◌, List, [], ◌∷◌, ◌++◌, map, Bool, true, ◌≡◌, refl, ap, ◌∙◌, ok, arith, All,
  length,
}
use zynq_rtl_flow.Base.Int.{ℤ}
use zynq_rtl_flow.Words.{low_bits, signed, IsSigned}
use zynq_rtl_flow.Str.{codes, decimal}
use zynq_rtl_flow.Golden.Relu
use zynq_rtl_flow.Golden.Rng.{Rng}
use zynq_rtl_flow.Golden.Draws.{gen_activations}
use zynq_rtl_flow.Golden.Draws.Activations.{gen_activations-IsSigned}
use zynq_rtl_flow.Rtl.ReluUnit.{relu_unit}
use zynq_rtl_flow.Rtl.ReluUnit.Golden.{map-relu_unit}
use zynq_rtl_flow.Effects.{M, ◌>>=◌, return, lift}
use zynq_rtl_flow.Effects.Laws.{bind-ok}
use zynq_rtl_flow.RunTile.Board.{Board}
use zynq_rtl_flow.RunTile.Bytes.{int8_bytes, from_int8_bytes, mismatches}
use zynq_rtl_flow.RunTile.Bytes.RoundTrip.{mismatches-zero_iff}
use zynq_rtl_flow.RunTile.Runners.{
  ReluTile, relu_tiles, plus_bool, relu_round, relu_rounds, run_relu,
}

-- a tile's bytes through the activation unit at a slope
abbrev pub filtered : ℕ → List ℕ → List ℕ
filtered slope bytes = map (λ b. relu_unit b slope) bytes

-- The device takes a slope and a tile and hands back as many bytes, each through the unit.
pub record Filters (board : Board) (Serves : board.State → Type 0) : Type 0 where
  pub filters :
      (s : board.State) (slope : ℕ) (bytes : List ℕ)
      → Serves s
      → slope < 256
      → (u : board.State) × (v : board.State) × (t : board.State) × (board.write_slope
            (decimal slope ++ codes "\n")
            s
          ≡ (ok tt, u))
        × (board.write bytes u ≡ (ok tt, v))
        × (board.read (length bytes) v ≡ (ok (filtered slope bytes), t))
        × Serves t

read_back :
    (tile : List ℤ) (slope : ℕ)
    → from_int8_bytes (filtered slope (int8_bytes tile))
      ≡ map (λ x. signed 8 (relu_unit (low_bits 8 x) slope)) tile
unfolding from_int8_bytes int8_bytes
read_back [] slope = refl
read_back (x ∷ tile) slope =
    ap (◌∷◌ (signed 8 (relu_unit (low_bits 8 x) slope))) (read_back tile slope)

length-int8_bytes : (tile : List ℤ) → length (int8_bytes tile) ≡ length tile
unfolding int8_bytes
length-int8_bytes [] = refl
length-int8_bytes (x ∷ tile) = ap suc (length-int8_bytes tile)

-- The bytes that come back differ from the golden tile in none.
no_mismatch :
    (tile : List ℤ) (slope : ℕ)
    → All (IsSigned 8) tile
    → slope < 256
    → mismatches (from_int8_bytes (filtered slope (int8_bytes tile))) (Relu.golden tile slope)
      ≡ ok 0
no_mismatch tile slope h small =
    let same = read_back tile slope ∙ map-relu_unit tile slope h small in
    (mismatches-zero_iff _ (Relu.golden tile slope) (ap length same)).1 same

module _ (board : Board) (rng : Rng) (Serves : board.State → Type 0)
    (device : Filters board Serves) where
  abbrev tile_of : ReluTile → List ℤ
  tile_of t = gen_activations rng t.size t.negative_ratio (rng.default_rng t.seed)

  abbrev counted : ReluTile → List ℕ → M board.State Bool
  counted t data' =
      lift (mismatches (from_int8_bytes data') (Relu.golden (tile_of t) t.slope)) >>= λ wrong.
      return (wrong == 0)

  abbrev behind_slope : ReluTile → M board.State Bool
  behind_slope t = board.write (int8_bytes (tile_of t)) >>= λ _. board.read t.size >>= counted t

  counted-true :
      (t : ReluTile) (s : board.State)
      → t.slope < 256
      → counted t (filtered t.slope (int8_bytes (tile_of t))) s ≡ (ok true, s)
  counted-true t s small =
      let (_, signed_bytes) =
        gen_activations-IsSigned rng t.size t.negative_ratio (rng.default_rng t.seed) in
      bind-ok
        (lift (
          mismatches (from_int8_bytes (filtered t.slope (int8_bytes (tile_of t))))
            (Relu.golden (tile_of t) t.slope)))
        (λ wrong. return (wrong == 0)) s s 0
        (ap (λ r. (r, s)) (no_mismatch (tile_of t) t.slope signed_bytes small))

  relu_round-true :
      (t : ReluTile) (s : board.State)
      → Serves s
      → t.slope < 256
      → (r : board.State) × (relu_round board rng t s ≡ (ok true, r)) × Serves r
  unfolding relu_round
  relu_round-true t s h small =
      let (size, _) =
        gen_activations-IsSigned rng t.size t.negative_ratio (rng.default_rng t.seed) in
      let (u, v, r, p, q, back, served) =
        device.filters s t.slope (int8_bytes (tile_of t)) h small in
      let got =
        subst (λ n. board.read n v ≡ (ok (filtered t.slope (int8_bytes (tile_of t))), r))
          (length-int8_bytes (tile_of t) ∙ size) back in
      (
        r,
        bind-ok (board.write_slope (decimal t.slope ++ codes "\n")) (λ _. behind_slope t) s u tt p
            ∙ (bind-ok (board.write (int8_bytes (tile_of t))) (λ _. board.read t.size >>= counted t)
                  u v tt q
                ∙ (bind-ok (board.read t.size) (counted t) v r
                      (filtered t.slope (int8_bytes (tile_of t))) got
                    ∙ counted-true t r small)),
        served,
      )

  relu_rounds-all :
      (tiles : List ReluTile) (matched : ℕ) (s : board.State)
      → Serves s
      → All (λ t. t.slope < 256) tiles
      → (t : board.State) × (relu_rounds board rng matched tiles s
          ≡ (ok (matched + length tiles), t))
        × Serves t
  unfolding relu_rounds
  relu_rounds-all [] matched s h small = (s, ap (λ x. (ok x, s)) (omega arith), h)
  relu_rounds-all (tile ∷ tiles) matched s h small =
      let (u, p, next) = relu_round-true tile s h small.0 in
      let (t, e, served) = relu_rounds-all tiles (plus_bool matched true) u next small.1 in
      (
        t,
        bind-ok (relu_round board rng tile) (λ b. relu_rounds board rng (plus_bool matched b) tiles)
              s u true p
            ∙ (e ∙ ap (λ x. (ok x, t)) (omega arith)),
        served,
      )

  -- On a device that takes the slopes and passes each byte of a tile through relu_unit, every tile of
  -- the list matches the golden model: `run_relu` returns that all of them did.
  pub run_relu-all :
      (s : board.State)
      → Serves s
      → (t : board.State) × (run_relu board rng s ≡ (ok (5, 5), t)) × Serves t
  unfolding run_relu
  run_relu-all s h =
      let (t, e, served) = relu_rounds-all relu_tiles 0 s h (omega arith) in
      (
        t,
        bind-ok (relu_rounds board rng 0 relu_tiles)
            (λ matched. return (matched, length relu_tiles)) s t 5 e,
        served,
      )
