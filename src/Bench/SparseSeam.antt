-- ===== src/Bench/SparseSeam.antt =====
-- tb/sparse_cnn_axi/tb_sparse_cnn_axi.py: the driver of the wrapper's two AXI interfaces, over the
-- masters of cocotbext.axi with the simulated wrapper behind them.
pub mod Cases
pub mod Tile
pub mod Golden
pub mod Raw
pub mod Clocked
use zynq_rtl_flow.Base.{
  ℕ, zero, suc, ◌+◌, ◌*◌, ◌^◌, ◌==◌, List, map, Bool, true, false, assertion_error, if◌then◌else◌,
}
use zynq_rtl_flow.Base.Int.{ℤ, pos, ◌==ℤ◌}
use zynq_rtl_flow.Words.{low_bits, test_bit}
use zynq_rtl_flow.Golden.SparseMac.{acc_w, data_w, golden, to_signed, zip}
use zynq_rtl_flow.Effects.{M, ◌>>=◌, return, lift, raise}
use zynq_rtl_flow.Bench.PeSeam.{check}

abbrev pub reg_id : ℕ
reg_id = 0

abbrev pub reg_ctrl : ℕ
reg_ctrl = 4

abbrev pub reg_status : ℕ
reg_status = 8

abbrev pub reg_acc : ℕ
reg_acc = 12

abbrev pub reg_skip : ℕ
reg_skip = 16

abbrev pub ctrl_start : ℕ
ctrl_start = 1

abbrev pub ctrl_clear : ℕ
ctrl_clear = 2

abbrev pub ctrl_en : ℕ
ctrl_en = 4

-- `status & STATUS_BUSY` and `status & STATUS_DONE`, as truth values
abbrev pub is_busy : ℕ → Bool
is_busy status = test_bit status 0

abbrev pub is_done : ℕ → Bool
is_done status = test_bit status 1

abbrev pub id_expected : ℕ
id_expected = 1397752064

abbrev pub poll_limit : ℕ
poll_limit = 10000

-- the two operands do not overlap
unfoldable pub pack_pair : ℤ × ℤ → ℕ
pack_pair (weight, act) = low_bits data_w act * 2 ^ data_w + low_bits data_w weight

-- the masters: registers by address, and a frame of stream beats
pub record Bus : Type 1 where
  pub State : Type 0
  pub read_dword : ℕ → M State ℕ
  pub write_dword : ℕ → ℕ → M State (Unit {0})
  pub send_frame : List ℕ → M State (Unit {0})

-- `assert_tile_in_flight`
unfoldable pub assert_tile_in_flight : {S : Type 0} → ℕ → M S (Unit {0})
assert_tile_in_flight status =
    if is_done status
    then raise assertion_error
    else if is_busy status
    then return tt
    else raise assertion_error

module _ (bus : Bus) where
  open bus use {State, read_dword, write_dword, send_frame}

  unfoldable pub read_acc : M State ℤ
  read_acc = read_dword reg_acc >>= λ raw. return (to_signed (pos raw) acc_w)

  unfoldable pub send : List ℤ → List ℤ → M State (Unit {0})
  unfolding pack_pair
  send weights acts = send_frame (map pack_pair (zip weights acts))

  unfoldable pub start : M State (Unit {0})
  start = write_dword reg_ctrl (ctrl_en + ctrl_start)

  -- behind a status that was read: done, or the polls that are left
  abbrev pub polled : M State (Unit {0}) → ℕ → M State (Unit {0})
  polled rest status =
      if is_done status then (if is_busy status then raise assertion_error else return tt) else rest

  -- `for _ in range(n)`
  unfoldable pub poll : ℕ → M State (Unit {0})
  poll zero = raise assertion_error
  poll (suc n) = let rest = poll n in read_dword reg_status >>= polled rest

  unfoldable pub await_done : M State (Unit {0})
  unfolding poll
  await_done = poll poll_limit

  unfoldable pub run_tile : List ℤ → List ℤ → M State (ℤ × ℕ)
  unfolding start send await_done read_acc
  run_tile weights acts = start >>= λ _. send weights acts >>= λ _.
      await_done >>= λ _. read_acc >>= λ acc. read_dword reg_skip >>= λ skip. return (acc, skip)

  unfoldable pub check_tile : List ℤ → List ℤ → M State (Unit {0})
  unfolding run_tile
  check_tile weights acts =
      let exp = golden weights acts in
      run_tile weights acts >>= λ got.
      lift (check (got.0 ==ℤ exp.0)) >>= λ _. lift (check (got.1 == exp.1))
