-- ===== src/Bench/SparseSeam/Raw/Cases.antt =====
-- `bring_up` of tb/sparse_cnn_axi/tb_sparse_cnn_axi.py with RawAxiLite as its master, and the test
-- that reads STATUS while the write of START is still landing.
use zynq_rtl_flow.Base.{ℕ, zero, suc, ◌+◌, true, false}
use zynq_rtl_flow.Base.Int.{◌==ℤ◌}
use zynq_rtl_flow.Golden.Rng.{Rng}
use zynq_rtl_flow.Golden.SparseMac.{golden}
use zynq_rtl_flow.Golden.Draws.{gen_pairs}
use zynq_rtl_flow.Effects.{M, ◌>>=◌, return, lift}
use zynq_rtl_flow.Bench.PeSeam.{check}
use zynq_rtl_flow.Bench.SparseSeam.{
  reg_ctrl, reg_status, reg_skip, ctrl_start, ctrl_en, assert_tile_in_flight, send, await_done,
  read_acc, check_tile,
}
use zynq_rtl_flow.Bench.SparseSeam.Cases.{expect}
use zynq_rtl_flow.Bench.SparseSeam.Raw.{
  StreamSource, Sim, released, rising_edge, raw_read_dword, write_read_same_cycle, raw_bus,
}

module _ (source : StreamSource) where
  -- `for _ in range(n): await RisingEdge(dut.aclk)`
  unfoldable pub rising_edges : ℕ → Sim source → Sim source
  unfolding rising_edge
  rising_edges zero s = s
  rising_edges (suc n) s = rising_edges n (rising_edge source s)

  -- the clock runs by itself
  unfoldable pub bring_up : Sim source → Sim source
  unfolding rising_edges
  bring_up s =
      let reset = rising_edges 5 (record s { aresetn = false; lite = released }) in
      rising_edge source (record reset { aresetn = true })

  module _ (rounds : ℕ) where
    -- `for i in range(n)`
    unfoldable pub reads_in_flight : ℕ → M (Sim source) (Unit {0})
    unfolding raw_read_dword assert_tile_in_flight
    reads_in_flight zero = return tt
    reads_in_flight (suc n) = raw_read_dword source rounds reg_status >>= λ status.
        assert_tile_in_flight status >>= λ _. reads_in_flight n

    -- the reads that race the write of START
    unfoldable pub racing_reads : M (Sim source) (Unit {0})
    unfolding write_read_same_cycle assert_tile_in_flight reads_in_flight
    racing_reads =
        write_read_same_cycle source rounds reg_ctrl (ctrl_en + ctrl_start) reg_status >>= λ racing.
        assert_tile_in_flight racing >>= λ _. reads_in_flight 8

    unfoldable pub test_status_never_reports_the_previous_tile_after_start :
        Rng → M (Sim source) (Unit {0})
    unfolding check_tile racing_reads send await_done read_acc expect gen_pairs
    test_status_never_reports_the_previous_tile_after_start rng =
        let bus = raw_bus source rounds in
        let (first_w, first_a) = gen_pairs rng 16 20 60 in
        let (second_w, second_a) = gen_pairs rng 32 50 61 in
        let exp = golden second_w second_a in
        check_tile bus first_w first_a >>= λ _. racing_reads >>= λ _.
        send bus second_w second_a >>= λ _. await_done bus >>= λ _.
        read_acc bus >>= λ acc. lift (check (acc ==ℤ exp.0)) >>= λ _. expect bus reg_skip exp.1
