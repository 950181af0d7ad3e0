-- ===== src/RunTile/Main/Success.antt =====
-- A run of driver/run-tile.py on a sparse accelerator that works ends with 0.
use zynq_rtl_flow.Base.{ℕ, List, ◌≡◌, ◌≢◌, some, ok, arith}
use zynq_rtl_flow.Base.Int.{sub_ℕ}
use zynq_rtl_flow.Str.{Text}
use zynq_rtl_flow.Golden.Rng.{Rng}
use zynq_rtl_flow.RunTile.Board.{Board}
use zynq_rtl_flow.RunTile.Interrupts.{irq_count}
use zynq_rtl_flow.RunTile.Runners.{run_sparse_cnn}
use zynq_rtl_flow.RunTile.Runners.Sparse.{Answers, run_sparse_cnn-all}
use zynq_rtl_flow.RunTile.Main.{
  sparse_cnn, device_of, exit_code, choose, run, conclude, run_counted, main,
}

exit_code-moved : (n before after : ℕ) → after ≢ before → exit_code n n (sub_ℕ after before) ≡ 0
unfolding exit_code
exit_code-moved n before after h = ground arith

module _ (board : Board) (rng : Rng) where
  conclude-some :
      (before after n : ℕ) (s : board.State)
      → irq_count (board.interrupts s) ≡ some after
      → after ≢ before
      → conclude board rng before (n, n) s ≡ (ok 0, s)
  unfolding conclude
  conclude-some before after n s e h = ground (arith, exit_code-moved n before after h)

  run_counted-sparse :
      (before after n : ℕ) (s o t : board.State)
      → board.open_device (device_of sparse_cnn) s ≡ (ok tt, o)
      → run_sparse_cnn board rng o ≡ (ok (n, n), t)
      → irq_count (board.interrupts (board.close t)) ≡ some after
      → after ≢ before
      → run_counted board rng sparse_cnn before s ≡ (ok 0, board.close t)
  unfolding run_counted run
  run_counted-sparse before after n s o t p q e h =
      ground (arith, conclude-some before after n (board.close t) e h)

  main-sparse :
      (argv : List Text) (before : ℕ) (s : board.State) {r : board.State}
      → choose board rng argv s ≡ (ok sparse_cnn, s)
      → irq_count (board.interrupts s) ≡ some before
      → run_counted board rng sparse_cnn before s ≡ (ok 0, r)
      → main board rng argv s ≡ (ok 0, r)
  unfolding main
  main-sparse argv before s p e h = ground arith

  -- On a board whose sparse accelerator answers every tile with its golden results, a run that picks
  -- it, finds the controller's interrupts counted, opens the device and finds a different count once
  -- the five tiles are served ends with 0, the device closed.
  pub main-success :
      (Serves : ℕ → board.State → Type 0) (answers : Answers board Serves) (argv : List Text)
      (before : ℕ) (s o : board.State)
      → choose board rng argv s ≡ (ok sparse_cnn, s)
      → irq_count (board.interrupts s) ≡ some before
      → board.open_device (device_of sparse_cnn) s ≡ (ok tt, o)
      → Serves 0 o
      → ((t : board.State)
          → Serves 5 t
          → (after : ℕ) × (irq_count (board.interrupts (board.close t)) ≡ some after)
            × (after ≢ before))
      → (t : board.State) × (main board rng argv s ≡ (ok 0, board.close t)) × Serves 5 t
  main-success Serves answers argv before s o p e opens ready counts =
      let (t, run, served) = run_sparse_cnn-all board rng Serves answers 0 o ready in
      let (after, e', h) = counts t served in
      (
        t,
        main-sparse argv before s p e (run_counted-sparse before after 5 s o t opens run e' h),
        served,
      )
