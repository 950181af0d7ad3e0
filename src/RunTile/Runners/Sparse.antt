-- ===== src/RunTile/Runners/Sparse.antt =====
-- `run_sparse_cnn` on a device that answers as the driver documents.
use mathlib.Core.Path.{subst}
use zynq_rtl_flow.Base.{
  ℕ, suc, ◌+◌, ◌^◌, ◌<◌, ◌==◌, List, [], ◌∷◌, Bool, true, ◌&&◌, ◌≡◌, refl, ap, ◌∙◌, ok, arith, All,
  length, ==_refl,
}
use zynq_rtl_flow.Base.Int.{ℤ, pos, ◌==ℤ◌, ==ℤ_refl}
use zynq_rtl_flow.Golden.SparseMac
use zynq_rtl_flow.Golden.Rng.{Rng}
use zynq_rtl_flow.Golden.Draws.{gen_pairs}
use zynq_rtl_flow.Golden.Draws.Range.{gen_pairs_fits}
use zynq_rtl_flow.Bench.PeSeam.Correct.{golden_bounds}
use zynq_rtl_flow.Effects.{M, ◌>>=◌, return, lift}
use zynq_rtl_flow.Effects.Laws.{bind-ok}
use zynq_rtl_flow.RunTile.Board.{Board}
use zynq_rtl_flow.RunTile.Bytes.{pack_beats, unpack_results}
use zynq_rtl_flow.RunTile.Bytes.RoundTrip.{
  operands_of, result_bytes, operands_of-pack_beats, unpack-result_bytes,
}
use zynq_rtl_flow.RunTile.Runners.{
  SparseTile, sparse_tiles, plus_bool, sparse_round, sparse_rounds, run_sparse_cnn,
}

-- what the device hands back for the bytes of a tile
abbrev pub answer_to : List ℕ → List ℕ
answer_to bytes =
    let (acc, skip) = SparseMac.golden_from (pos 0) 0 (operands_of bytes) in result_bytes acc skip

-- The device takes a tile whole and answers with the eight bytes of its results; `Serves n` are its
-- states behind `n` tiles.
pub record Answers (board : Board) (Serves : ℕ → board.State → Type 0) : Type 0 where
  pub written : (n : ℕ) (s : board.State) (bytes : List ℕ) → Serves n s → board.State
  pub answered : (n : ℕ) (s : board.State) (bytes : List ℕ) → Serves n s → board.State
  pub writes :
      (n : ℕ) (s : board.State) (bytes : List ℕ) (h : Serves n s)
      → board.write bytes s ≡ (ok tt, written n s bytes h)
  pub reads :
      (n : ℕ) (s : board.State) (bytes : List ℕ) (h : Serves n s)
      → board.read 8 (written n s bytes h) ≡ (ok (answer_to bytes), answered n s bytes h)
  pub serves :
      (n : ℕ) (s : board.State) (bytes : List ℕ) (h : Serves n s)
      → Serves (suc n) (answered n s bytes h)

plus_none : (m : ℕ) → m ≡ m + 0
plus_none m = omega arith

plus_one : (m k : ℕ) → (m + 1) + k ≡ m + suc k
plus_one m k = omega arith

plus_suc : (m k : ℕ) → suc m + k ≡ m + suc k
plus_suc m k = omega arith

module _ (board : Board) (rng : Rng) (Serves : ℕ → board.State → Type 0)
    (answers : Answers board Serves) where
  -- the tile as bytes, and its golden results
  abbrev pairs_of : SparseTile → List (ℤ × ℤ)
  pairs_of t = let (w, a) = gen_pairs rng t.size t.sparsity t.seed in SparseMac.zip w a

  abbrev want_of : SparseTile → ℤ × ℕ
  want_of t = let (w, a) = gen_pairs rng t.size t.sparsity t.seed in SparseMac.golden w a

  answer-golden :
      (t : SparseTile)
      → t.size < 2 ^ 16
      → unpack_results (answer_to (pack_beats (pairs_of t))) ≡ ok (want_of t)
  unfolding SparseMac.golden
  answer-golden t small =
      let (w, a) = gen_pairs rng t.size t.sparsity t.seed in
      let (pairs, size) = gen_pairs_fits rng t.size t.sparsity t.seed in
      let fits = golden_bounds w a pairs (omega arith) in
      rw (operands_of-pack_beats (pairs_of t) pairs)
        (unpack-result_bytes (want_of t).0 (want_of t).1 fits.0 (omega (arith, fits.1)))

  -- whether a result is the wanted one
  abbrev judge : ℤ × ℕ → ℤ × ℕ → M board.State Bool
  judge want got = return (got.0 ==ℤ want.0 && got.1 == want.1)

  judge-same : (want : ℤ × ℕ) (s : board.State) → judge want want s ≡ (ok true, s)
  judge-same want s = rw (==ℤ_refl want.0, ==_refl want.1) refl

  abbrev judged : SparseTile → List ℕ → M board.State Bool
  judged t data' = lift (unpack_results data') >>= judge (want_of t)

  sparse_round-true :
      (n : ℕ) (t : SparseTile) (s : board.State) (h : Serves n s)
      → t.size < 2 ^ 16
      → sparse_round board rng t s ≡ (ok true, answers.answered n s (pack_beats (pairs_of t)) h)
  unfolding sparse_round
  sparse_round-true n t s h small =
      let bytes = pack_beats (pairs_of t) in
      bind-ok (board.write bytes) (λ _. board.read 8 >>= judged t) s (answers.written n s bytes h)
        tt (answers.writes n s bytes h)
      ∙ (bind-ok (board.read 8) (judged t) (answers.written n s bytes h)
            (answers.answered n s bytes h) (answer_to bytes) (answers.reads n s bytes h)
          ∙ (ap (λ r. (lift r >>= judge (want_of t)) (answers.answered n s bytes h))
                (answer-golden t small)
              ∙ judge-same (want_of t) (answers.answered n s bytes h)))

  sparse_rounds-all :
      (tiles : List SparseTile) (n matched : ℕ) (s : board.State) (h : Serves n s)
      → All (λ t. t.size < 2 ^ 16) tiles
      → (t : board.State) × (sparse_rounds board rng matched tiles s
          ≡ (ok (matched + length tiles), t))
        × Serves (n + length tiles) t
  unfolding sparse_rounds
  sparse_rounds-all [] n matched s h small =
      (s, ap (λ x. (ok x, s)) (plus_none matched), subst (λ x. Serves x s) (plus_none n) h)
  sparse_rounds-all (tile ∷ tiles) n matched s h small =
      let s' = answers.answered n s (pack_beats (pairs_of tile)) h in
      let (t, e, served) =
        sparse_rounds-all tiles (suc n) (plus_bool matched true) s'
          (answers.serves n s (pack_beats (pairs_of tile)) h) small.1 in
      (
        t,
        bind-ok (sparse_round board rng tile)
              (λ b. sparse_rounds board rng (plus_bool matched b) tiles) s s' true
              (sparse_round-true n tile s h small.0)
            ∙ (e ∙ ap (λ x. (ok x, t)) (plus_one matched (length tiles))),
        subst (λ x. Serves x t) (plus_suc n (length tiles)) served,
      )

  -- On a device that answers each tile with the golden results of the bytes that it was written,
  -- every tile of the list matches: `run_sparse_cnn` returns that all of them did.
  pub run_sparse_cnn-all :
      (n : ℕ) (s : board.State) (h : Serves n s)
      → (t : board.State) × (run_sparse_cnn board rng s ≡ (ok (5, 5), t)) × Serves (n + 5) t
  unfolding run_sparse_cnn
  run_sparse_cnn-all n s h =
      let (t, e, served) = sparse_rounds-all sparse_tiles n 0 s h (omega arith) in
      (
        t,
        bind-ok (sparse_rounds board rng 0 sparse_tiles)
            (λ matched. return (matched, length sparse_tiles)) s t 5 e,
        served,
      )
