-- ===== src/Bench/SparseSeam/Clocked.antt =====
-- The tests of tb/sparse_cnn_axi/tb_sparse_cnn_axi.py that watch the clock, the handshake or the reset.
-- Each begins on an accelerator that `bring_up` has reset.
use zynq_rtl_flow.Base.{
  ℕ, zero, suc, ◌+◌, ◌%◌, ◌==◌, List, [], ◌∷◌, drop, get_elem?, none, some, Bool, true, false, not,
  ltb, no_end, if◌then◌else◌,
}
use zynq_rtl_flow.Base.Int.{ℤ, pos, ◌==ℤ◌}
use zynq_rtl_flow.Golden.Rng.{Rng}
use zynq_rtl_flow.Golden.SparseMac.{golden}
use zynq_rtl_flow.Golden.Draws.{gen_pairs}
use zynq_rtl_flow.Effects.{M, ◌>>=◌, return, lift, raise, gets, modify}
use zynq_rtl_flow.Bench.PeSeam.{check}
use zynq_rtl_flow.Bench.SparseSeam.{
  Bus, reg_ctrl, reg_status, reg_acc, reg_skip, ctrl_clear, ctrl_en, is_done, poll_limit, start,
  send, await_done, read_acc, check_tile,
}
use zynq_rtl_flow.Bench.SparseSeam.Cases.{expect}

-- the masters, and of the simulator what these tests use: the awaited edge and timer, the pins that
-- they drive or read, the pauses and the queue of the source, and the total of a _BeatCounter
pub record Clocked : Type 1 where
  pub bus : Bus
  pub rising_edge : bus.State → bus.State
  pub two_periods : bus.State → bus.State
  pub s_axis_tready : bus.State → Bool
  pub drive_aresetn : Bool → bus.State → bus.State
  pub set_pause_generator : (ℕ → Bool) → bus.State → bus.State
  pub clear_source : bus.State → bus.State
  pub count_beats : bus.State → bus.State
  pub total : bus.State → ℕ

-- the pattern of `cycle_pauses`, a pause for each 1
abbrev pub pause_pattern : List Bool
pause_pattern =
    false ∷ false ∷ true ∷ true ∷ false ∷ true ∷ false ∷ false ∷ true ∷ true ∷ true ∷ false ∷ []

-- the values that the generator yields, by their number
unfoldable pub cycle_pauses : ℕ → Bool
cycle_pauses i = elim (get_elem? pause_pattern (i % 12)) [ some b ↦ b | none ↦ false ]

module _ (clocked : Clocked) where
  open clocked use {
    bus, rising_edge, two_periods, s_axis_tready, drive_aresetn, set_pause_generator, clear_source,
    count_beats, total,
  }

  -- `for _ in range(n): await RisingEdge(dut.aclk)`
  unfoldable pub wait_rising : ℕ → bus.State → bus.State
  wait_rising zero s = s
  wait_rising (suc n) s = wait_rising n (rising_edge s)

  -- `n` edges, with `assert dut.s_axis_tready.value == 0` at each: like the handshake that
  -- _BeatCounter watches, READY is read as it stands when the edge comes
  unfoldable pub withheld : ℕ → M bus.State (Unit {0})
  withheld zero = return tt
  withheld (suc n) = gets s_axis_tready >>= λ ready.
      modify rising_edge >>= λ _. lift (check (not ready)) >>= λ _. withheld n

  -- both results against the golden ones
  unfoldable pub expect_results : List ℤ → List ℤ → M bus.State (Unit {0})
  unfolding read_acc expect
  expect_results weights acts =
      let exp = golden weights acts in
      read_acc bus >>= λ acc. lift (check (acc ==ℤ exp.0)) >>= λ _. expect bus reg_skip exp.1

  -- `for _ in range(n)`: whether a read before completion was seen
  unfoldable pub reads_before_done : ℕ → ℤ × ℕ → Bool → M bus.State Bool
  unfolding read_acc expect
  reads_before_done zero first saw_busy = return saw_busy
  reads_before_done (suc n) first saw_busy =
      let rest = reads_before_done n first true in
      bus.read_dword reg_status >>= λ status.
      if is_done status
      then return saw_busy
      else read_acc bus >>= λ acc.
          lift (check (acc ==ℤ first.0)) >>= λ _. expect bus reg_skip first.1 >>= λ _. rest

  -- `while consumed.total < bound`, for at most so many edges
  unfoldable pub wait_total : ℕ → ℕ → M bus.State (Unit {0})
  wait_total zero bound s = (if ltb (total s) bound then raise no_end else return tt) s
  wait_total (suc n) bound s =
      let rest = wait_total n bound (rising_edge s) in
      if ltb (total s) bound then rest else return tt s

  module _ (rng : Rng) where
    unfoldable pub test_backpressure_from_source : M bus.State (Unit {0})
    unfolding check_tile cycle_pauses gen_pairs
    test_backpressure_from_source =
        let (w, a) = gen_pairs rng 48 30 4 in
        modify (set_pause_generator cycle_pauses) >>= λ _. check_tile bus w a

    unfoldable pub test_backpressure_from_wrapper : M bus.State (Unit {0})
    unfolding start send withheld await_done expect_results gen_pairs
    test_backpressure_from_wrapper =
        let (w, a) = gen_pairs rng 64 20 5 in
        start bus >>= λ _. send bus w a >>= λ _. modify rising_edge >>= λ _.
        bus.write_dword reg_ctrl 0 >>= λ _. withheld 20 >>= λ _.
        bus.write_dword reg_ctrl ctrl_en >>= λ _. await_done bus >>= λ _. expect_results w a

    unfoldable pub test_no_beats_before_start : M bus.State (Unit {0})
    unfolding start send withheld await_done expect_results gen_pairs
    test_no_beats_before_start =
        let (w, a) = gen_pairs rng 16 0 6 in
        send bus w a >>= λ _.
        withheld 20 >>= λ _. start bus >>= λ _. await_done bus >>= λ _. expect_results w a

    unfoldable pub test_result_read_before_completion : M bus.State (Unit {0})
    unfolding check_tile start send reads_before_done expect_results cycle_pauses gen_pairs
    test_result_read_before_completion =
        let (first_w, first_a) = gen_pairs rng 32 0 20 in
        let (second_w, second_a) = gen_pairs rng 256 50 21 in
        check_tile bus first_w first_a >>= λ _. modify (set_pause_generator cycle_pauses) >>= λ _.
        start bus >>= λ _. send bus second_w second_a >>= λ _.
        reads_before_done poll_limit (golden first_w first_a) false >>= λ saw_busy.
        lift (check saw_busy) >>= λ _. expect_results second_w second_a

    unfoldable pub test_explicit_clear : M bus.State (Unit {0})
    unfolding check_tile read_acc expect gen_pairs
    test_explicit_clear =
        let (w, a) = gen_pairs rng 32 40 30 in
        let (after_w, after_a) = gen_pairs rng 32 40 31 in
        check_tile bus w a >>= λ _. bus.write_dword reg_ctrl (ctrl_en + ctrl_clear) >>= λ _.
        modify two_periods >>= λ _. read_acc bus >>= λ acc. lift (check (acc ==ℤ pos 0)) >>= λ _.
        expect bus reg_skip 0 >>= λ _. check_tile bus after_w after_a

    -- the edges that the test may wait for 24 beats are a parameter
    unfoldable pub test_clear_mid_tile : ℕ → M bus.State (Unit {0})
    unfolding start send wait_total expect await_done expect_results gen_pairs
    test_clear_mid_tile rounds =
        let (w, a) = gen_pairs rng 96 30 50 in
        modify count_beats >>= λ _. start bus >>= λ _. send bus w a >>= λ _.
        wait_total rounds 24 >>= λ _. bus.write_dword reg_ctrl 0 >>= λ _.
        modify rising_edge >>= λ _. gets total >>= λ split.
        bus.write_dword reg_ctrl ctrl_clear >>= λ _. modify rising_edge >>= λ _.
        expect bus reg_acc 0 >>= λ _. expect bus reg_skip 0 >>= λ _. gets total >>= λ now.
        lift (check (now == split)) >>= λ _. bus.write_dword reg_ctrl ctrl_en >>= λ _.
        await_done bus >>= λ _. expect_results (drop split w) (drop split a)

    unfoldable pub test_reset_mid_stream : M bus.State (Unit {0})
    unfolding start send wait_rising expect check_tile gen_pairs
    test_reset_mid_stream =
        let (w, a) = gen_pairs rng 512 0 40 in
        let (after_w, after_a) = gen_pairs rng 32 20 41 in
        start bus >>= λ _. send bus w a >>= λ _. modify (wait_rising 16) >>= λ _.
        modify (drive_aresetn false) >>= λ _. modify (wait_rising 5) >>= λ _.
        modify (drive_aresetn true) >>= λ _. modify rising_edge >>= λ _.
        modify clear_source >>= λ _. modify rising_edge >>= λ _. expect bus reg_status 0 >>= λ _.
        expect bus reg_ctrl ctrl_en >>= λ _.
        expect bus reg_acc 0 >>= λ _. expect bus reg_skip 0 >>= λ _. check_tile bus after_w after_a
