-- ===== src/Bench/SparseSeam/Cases.antt =====
-- The tests of tb/sparse_cnn_axi/tb_sparse_cnn_axi.py that use only the masters' operations. Each
-- begins on an accelerator that `bring_up` has reset.
use zynq_rtl_flow.Base.{ℕ, zero, suc, ◌+◌, ◌*◌, ◌==◌, length, replicate}
use zynq_rtl_flow.Base.Int.{pos, negsuc}
use zynq_rtl_flow.Golden.Rng.{Rng}
use zynq_rtl_flow.Golden.Draws.{gen_pairs}
use zynq_rtl_flow.Effects.{M, ◌>>=◌, return, lift}
use zynq_rtl_flow.Bench.PeSeam.{check}
use zynq_rtl_flow.Bench.PeSeam.Cases.{arange}
use zynq_rtl_flow.Bench.SparseSeam.{
  Bus, reg_id, reg_ctrl, reg_status, reg_acc, reg_skip, ctrl_start, ctrl_clear, ctrl_en,
  id_expected, check_tile,
}

module _ (bus : Bus) where
  open bus use {State, read_dword, write_dword}

  -- `assert await accel.read(addr) == value`
  unfoldable pub expect : ℕ → ℕ → M State (Unit {0})
  expect addr value = read_dword addr >>= λ got. lift (check (got == value))

  unfoldable pub test_id_register : M State (Unit {0})
  unfolding expect
  test_id_register = expect reg_id id_expected

  unfoldable pub test_register_map : M State (Unit {0})
  unfolding expect
  test_register_map = expect reg_ctrl ctrl_en >>= λ _. expect reg_status 0 >>= λ _.
      expect reg_acc 0 >>= λ _. expect reg_skip 0 >>= λ _. write_dword reg_ctrl 0 >>= λ _.
      expect reg_ctrl 0 >>= λ _. write_dword reg_ctrl (ctrl_en + ctrl_start + ctrl_clear) >>= λ _.
      expect reg_ctrl ctrl_en >>= λ _.
      write_dword reg_ctrl 4294967295 >>= λ _. expect reg_ctrl ctrl_en >>= λ _. expect 64 0

  unfoldable pub tile_all_zero : M State (Unit {0})
  unfolding check_tile arange
  tile_all_zero = check_tile bus (replicate 32 (pos 0)) (arange 1 32)

  module _ (rng : Rng) where
    unfoldable pub tile_dense : M State (Unit {0})
    unfolding check_tile gen_pairs
    tile_dense = let (w, a) = gen_pairs rng 64 0 1 in check_tile bus w a

    unfoldable pub tile_sparse : M State (Unit {0})
    unfolding check_tile gen_pairs
    tile_sparse = let (w, a) = gen_pairs rng 128 70 2 in check_tile bus w a

    -- `w[:] = 127` and `a[:] = -128`
    unfoldable pub tile_saturation : M State (Unit {0})
    unfolding check_tile gen_pairs
    tile_saturation =
        let (w, a) = gen_pairs rng 100 0 3 in
        check_tile bus (replicate (length w) (pos 127)) (replicate (length a) (negsuc 127))

    -- `for i in range(...)`, `n` rounds from round `i`
    unfoldable pub tiles_from : ℕ → ℕ → M State (Unit {0})
    unfolding check_tile gen_pairs
    tiles_from i zero = return tt
    tiles_from i (suc n) =
        let (w, a) = gen_pairs rng (24 + 8 * i) (10 * i) (10 + i) in
        check_tile bus w a >>= λ _. tiles_from (i + 1) n

    unfoldable pub test_back_to_back_tiles : M State (Unit {0})
    unfolding tiles_from
    test_back_to_back_tiles = tiles_from 0 4
