-- ===== src/Bench/ReluSeam/Cases.antt =====
-- The tests of tb/relu_axi/tb_relu_axi.py. Each begins on an accelerator that `reset` has reset.
use zynq_rtl_flow.Base.{
  ℕ, zero, suc, ◌-◌, ◌==◌, List, [], ◌∷◌, ◌++◌, length, replicate, Bool, true, false, ◌&&◌, not,
}
use zynq_rtl_flow.Base.Int.{ℤ, ◌==ℤ◌}
use zynq_rtl_flow.Words.{test_bit}
use zynq_rtl_flow.Golden.Rng.{Rng}
use zynq_rtl_flow.Golden.Relu.{slope_reset, golden}
use zynq_rtl_flow.Golden.Draws.{gen_activations, behind_activations}
use zynq_rtl_flow.Effects.{M, ◌>>=◌, return, lift, gets, modify}
use zynq_rtl_flow.Bench.PeSeam.{check}
use zynq_rtl_flow.Bench.ReluSeam.{
  Masters, reg_id, reg_ctrl, reg_status, reg_slope, reg_count, ctrl_en, status_busy, status_done,
  id_expected, read, write, send_tile, recv_tile, run_tile, await_done,
}

-- `==` of two lists
unfoldable pub same_list : List ℤ → List ℤ → Bool
same_list [] [] = true
same_list (x ∷ xs) (y ∷ ys) = x ==ℤ y && same_list xs ys
same_list _ _ = false

unfoldable pub same_flags : List ℕ → List ℕ → Bool
same_flags [] [] = true
same_flags (x ∷ xs) (y ∷ ys) = x == y && same_flags xs ys
same_flags _ _ = false

-- `[0] * (n - 1) + [1]`
unfoldable pub one_last : ℕ → List ℕ
one_last n = replicate (n - 1) 0 ++ 1 ∷ []

module _ (masters : Masters) where
  open masters use {
    State, pause_sink, rising_edge, s_axis_tready, drive_tvalid, drive_tdata, start_monitor,
    monitor_flags,
  }

  -- `assert await accel.read(addr) == value`
  unfoldable pub expect_read : ℕ → ℕ → M State (Unit {0})
  unfolding read
  expect_read addr value = read masters addr >>= λ got. lift (check (got == value))

  -- `assert await accel.run_tile(tile) == list(golden(tile, slope))`
  unfoldable pub expect_tile : List ℤ → ℕ → M State (Unit {0})
  unfolding run_tile same_list
  expect_tile tile slope =
      run_tile masters tile >>= λ got. lift (check (same_list got (golden tile slope)))

  unfoldable pub test_id_reads_before_any_write : M State (Unit {0})
  unfolding expect_read
  test_id_reads_before_any_write = expect_read reg_id id_expected

  unfoldable pub test_reset_values : M State (Unit {0})
  unfolding expect_read read
  test_reset_values = read masters reg_ctrl >>= λ ctrl. lift (check (test_bit ctrl 0)) >>= λ _.
      expect_read reg_slope slope_reset >>= λ _.
      expect_read reg_count 0 >>= λ _. expect_read reg_status 0

  unfoldable pub test_unmapped_offset_reads_zero : M State (Unit {0})
  unfolding expect_read
  test_unmapped_offset_reads_zero = expect_read 64 0

  unfoldable pub test_slope_is_eight_bits : M State (Unit {0})
  unfolding write expect_read
  test_slope_is_eight_bits = write masters reg_slope 3735928327 >>= λ _. expect_read reg_slope 7

  -- `for slope in ...`
  unfoldable pub slopes_on : List ℤ → List ℕ → M State (Unit {0})
  unfolding write expect_read expect_tile
  slopes_on tile [] = return tt
  slopes_on tile (slope ∷ slopes) = write masters reg_slope slope >>= λ _.
      expect_read reg_slope slope >>= λ _. expect_tile tile slope >>= λ _. slopes_on tile slopes

  -- `for _ in range(n): await RisingEdge(dut.aclk)`
  unfoldable pub edges : ℕ → State → State
  edges zero s = s
  edges (suc n) s = edges n (rising_edge s)

  -- `n` edges, with `assert dut.s_axis_tready.value == 0` behind each
  unfoldable pub never_ready : ℕ → M State (Unit {0})
  never_ready zero = return tt
  never_ready (suc n) = modify rising_edge >>= λ _.
      gets s_axis_tready >>= λ ready. lift (check (not ready)) >>= λ _. never_ready n

  module _ (rng : Rng) where
    open rng use {default_rng}

    unfoldable pub test_default_slope_matches_the_model : M State (Unit {0})
    unfolding expect_tile gen_activations
    test_default_slope_matches_the_model =
        expect_tile (gen_activations rng 64 50 (default_rng 1)) slope_reset

    unfoldable pub test_slope_is_writable : M State (Unit {0})
    unfolding slopes_on gen_activations
    test_slope_is_writable =
        slopes_on (gen_activations rng 48 90 (default_rng 2)) (0 ∷ 1 ∷ 128 ∷ 255 ∷ [])

    unfoldable pub test_tlast_marks_the_tile : M State (Unit {0})
    unfolding run_tile same_flags one_last gen_activations
    test_tlast_marks_the_tile =
        let tile = gen_activations rng 16 50 (default_rng 3) in
        modify start_monitor >>= λ _. run_tile masters tile >>= λ values.
        lift (check (length values == length tile)) >>= λ _.
        gets monitor_flags >>= λ flags. lift (check (same_flags flags (one_last (length tile))))

    unfoldable pub test_status_and_count_report_the_tile : M State (Unit {0})
    unfolding send_tile recv_tile await_done read expect_read gen_activations
    test_status_and_count_report_the_tile =
        let tile = gen_activations rng 32 50 (default_rng 4) in
        send_tile masters tile >>= λ _. modify rising_edge >>= λ _.
        read masters reg_status >>= λ early. lift (check (status_busy early)) >>= λ _.
        recv_tile masters >>= λ values. await_done masters >>= λ _.
        read masters reg_status >>= λ status. lift (check (not (status_busy status))) >>= λ _.
        lift (check (status_done status)) >>= λ _. read masters reg_count >>= λ count.
        lift (check (count == length tile && length tile == length values))

    -- `for length in ...`
    unfoldable pub tiles_of : List ℕ → rng.State → M State (Unit {0})
    unfolding run_tile await_done expect_read same_list gen_activations behind_activations
    tiles_of [] s = return tt
    tiles_of (n ∷ lengths) s =
        let tile = gen_activations rng n 50 s in
        run_tile masters tile >>= λ got. await_done masters >>= λ _.
        lift (check (same_list got (golden tile slope_reset))) >>= λ _.
        expect_read reg_count n >>= λ _. tiles_of lengths (behind_activations rng n 50 s)

    unfoldable pub test_two_tiles_back_to_back : M State (Unit {0})
    unfolding tiles_of
    test_two_tiles_back_to_back = tiles_of (8 ∷ 40 ∷ []) (default_rng 5)

    unfoldable pub test_enable_low_withdraws_ready : M State (Unit {0})
    unfolding write never_ready expect_tile gen_activations
    test_enable_low_withdraws_ready = write masters reg_ctrl 0 >>= λ _.
        modify (drive_tvalid true) >>= λ _. modify (drive_tdata 127) >>= λ _. never_ready 8 >>= λ _.
        modify rising_edge >>= λ _. modify (drive_tvalid false) >>= λ _.
        write masters reg_ctrl ctrl_en >>= λ _.
        expect_tile (gen_activations rng 12 50 (default_rng 6)) slope_reset

    unfoldable pub test_backpressure_preserves_the_tile : M State (Unit {0})
    unfolding send_tile recv_tile edges same_list gen_activations
    test_backpressure_preserves_the_tile =
        let tile = gen_activations rng 64 50 (default_rng 7) in
        modify (pause_sink true) >>= λ _. send_tile masters tile >>= λ _. modify (edges 50) >>= λ _.
        modify (pause_sink false) >>= λ _.
        recv_tile masters >>= λ values. lift (check (same_list values (golden tile slope_reset)))
