-- ===== src/RunTile/Runners.antt =====
-- `run_sparse_cnn` and `run_relu` of driver/run-tile.py. What they print is left out.
pub mod Sparse
pub mod Filter
pub mod Matches
use zynq_rtl_flow.Base.{ℕ, ◌+◌, List, [], ◌∷◌, ◌++◌, Bool, ◌&&◌, ◌==◌, length, if◌then◌else◌}
use zynq_rtl_flow.Base.Int.{◌==ℤ◌}
use zynq_rtl_flow.Str.{codes, decimal}
use zynq_rtl_flow.Golden.SparseMac
use zynq_rtl_flow.Golden.Relu
use zynq_rtl_flow.Golden.Rng.{Rng}
use zynq_rtl_flow.Golden.Draws.{gen_pairs, gen_activations}
use zynq_rtl_flow.Effects.{M, ◌>>=◌, return, lift}
use zynq_rtl_flow.RunTile.Board.{Board}
use zynq_rtl_flow.RunTile.Bytes.{
  pack_beats, unpack_results, int8_bytes, from_int8_bytes, mismatches,
}

pub record SparseTile : Type 0 where
  pub size : ℕ
  pub sparsity : ℕ
  pub seed : ℕ

pub record ReluTile : Type 0 where
  pub size : ℕ
  pub negative_ratio : ℕ
  pub slope : ℕ
  pub seed : ℕ

-- `SPARSE_TILES`, the fractions in hundredths
abbrev pub sparse_tiles : List SparseTile
sparse_tiles =
    record { size = 16; sparsity = 0; seed = 1 }
    ∷ record { size = 64; sparsity = 25; seed = 2 }
    ∷ record { size = 256; sparsity = 50; seed = 3 }
    ∷ record { size = 1024; sparsity = 90; seed = 4 }
    ∷ record { size = 4096; sparsity = 50; seed = 5 }
    ∷ []

-- `RELU_TILES`
abbrev pub relu_tiles : List ReluTile
relu_tiles =
    record { size = 16; negative_ratio = 100; slope = 0; seed = 1 }
    ∷ record { size = 64; negative_ratio = 50; slope = 25; seed = 2 }
    ∷ record { size = 256; negative_ratio = 50; slope = 255; seed = 3 }
    ∷ record { size = 1024; negative_ratio = 75; slope = 1; seed = 4 }
    ∷ record { size = 4096; negative_ratio = 50; slope = 128; seed = 5 }
    ∷ []

-- `matched += ok`
abbrev pub plus_bool : ℕ → Bool → ℕ
plus_bool n b = n + (if b then 1 else 0)

module _ (board : Board) (rng : Rng) where
  open board use {State, write, read, write_slope}

  -- one round of `run_sparse_cnn`: whether the device's results are the golden ones
  unfoldable pub sparse_round : SparseTile → M State Bool
  unfolding pack_beats unpack_results
  sparse_round t =
      let (weights, acts) = gen_pairs rng t.size t.sparsity t.seed in
      let want = SparseMac.golden weights acts in
      write (pack_beats (SparseMac.zip weights acts)) >>= λ _. read 8 >>= λ data'.
      lift (unpack_results data') >>= λ got. return (got.0 ==ℤ want.0 && got.1 == want.1)

  unfoldable pub sparse_rounds : ℕ → List SparseTile → M State ℕ
  unfolding sparse_round
  sparse_rounds matched [] = return matched
  sparse_rounds matched (t ∷ tiles) =
      sparse_round t >>= λ b. sparse_rounds (plus_bool matched b) tiles

  unfoldable pub run_sparse_cnn : M State (ℕ × ℕ)
  unfolding sparse_rounds
  run_sparse_cnn = sparse_rounds 0 sparse_tiles >>= λ matched. return (matched, length sparse_tiles)

  -- one round of `run_relu`
  unfoldable pub relu_round : ReluTile → M State Bool
  unfolding int8_bytes from_int8_bytes mismatches decimal
  relu_round t =
      let tile = gen_activations rng t.size t.negative_ratio (rng.default_rng t.seed) in
      let want = Relu.golden tile t.slope in
      write_slope (decimal t.slope ++ codes "\n") >>= λ _. write (int8_bytes tile) >>= λ _.
      read t.size >>= λ data'.
      lift (mismatches (from_int8_bytes data') want) >>= λ wrong. return (wrong == 0)

  unfoldable pub relu_rounds : ℕ → List ReluTile → M State ℕ
  unfolding relu_round
  relu_rounds matched [] = return matched
  relu_rounds matched (t ∷ tiles) = relu_round t >>= λ b. relu_rounds (plus_bool matched b) tiles

  unfoldable pub run_relu : M State (ℕ × ℕ)
  unfolding relu_rounds
  run_relu = relu_rounds 0 relu_tiles >>= λ matched. return (matched, length relu_tiles)
