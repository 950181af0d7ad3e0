-- ===== src/Bench/ReluSeam.antt =====
-- tb/relu_axi/tb_relu_axi.py: the driver of the accelerator's three interfaces, over the masters of
-- cocotbext.axi with the simulated wrapper behind them.
pub mod Cases
pub mod Bytes
pub mod Reset
pub mod Monitor
pub mod Golden
use zynq_rtl_flow.Base.{
  ℕ, zero, suc, ◌+◌, ◌*◌, ◌/◌, ◌%◌, ◌^◌, List, [], ◌∷◌, ◌++◌, map, Bool, Result, ok, err,
  assertion_error, overflow_error, ltb, if◌then◌else◌,
}
use zynq_rtl_flow.Base.Int.{ℤ, pos}
use zynq_rtl_flow.Words.{low_bits, test_bit}
use zynq_rtl_flow.Golden.Relu.{data_w, to_signed}
use zynq_rtl_flow.Effects.{M, ◌>>=◌, return, lift, raise}

-- the register map
abbrev pub reg_id : ℕ
reg_id = 0

abbrev pub reg_ctrl : ℕ
reg_ctrl = 4

abbrev pub reg_status : ℕ
reg_status = 8

abbrev pub reg_slope : ℕ
reg_slope = 12

abbrev pub reg_count : ℕ
reg_count = 16

abbrev pub ctrl_en : ℕ
ctrl_en = 1

-- `status & STATUS_BUSY` and `status & STATUS_DONE`, as truth values
abbrev pub status_busy : ℕ → Bool
status_busy status = test_bit status 0

abbrev pub status_done : ℕ → Bool
status_done status = test_bit status 1

abbrev pub id_expected : ℕ
id_expected = 1380712704

abbrev pub poll_limit : ℕ
poll_limit = 10000

-- the masters, and of the simulator what the tests use: the awaited clock edge, the stream pins that
-- they drive or read, and the flags of a LastMonitor
pub record Masters : Type 1 where
  pub State : Type 0
  pub axil_read : ℕ → ℕ → M State (List ℕ)
  pub axil_write : ℕ → List ℕ → M State (Unit {0})
  pub source_send : List ℕ → M State (Unit {0})
  pub sink_recv : M State (List ℕ)
  pub pause_sink : Bool → State → State
  pub rising_edge : State → State
  pub s_axis_tready : State → Bool
  pub drive_tvalid : Bool → State → State
  pub drive_tdata : ℕ → State → State
  pub start_monitor : State → State
  pub monitor_flags : State → List ℕ

-- `int.from_bytes(data, "little")`
unfoldable pub from_bytes : List ℕ → ℕ
from_bytes [] = 0
from_bytes (b ∷ bytes) = b + 256 * from_bytes bytes

-- so many bytes of a number, the lowest first
unfoldable pub bytes_of : ℕ → ℕ → List ℕ
bytes_of zero value = []
bytes_of (suc n) value = value % 256 ∷ bytes_of n (value / 256)

-- `int(value).to_bytes(4, "little")`
unfoldable pub to_bytes : ℕ → Result (List ℕ)
unfolding bytes_of
to_bytes value = if ltb value (2 ^ 32) then ok (bytes_of 4 value) else err overflow_error

-- `int(v) & DATA_MASK` of every activation
unfoldable pub raw_beats : List ℤ → List ℕ
raw_beats = map (low_bits data_w)

-- `to_signed(v)` of every beat
unfoldable pub signed_beats : List ℕ → List ℤ
signed_beats = map (λ v. to_signed (pos v) data_w)

module _ (masters : Masters) where
  open masters use {State, axil_read, axil_write, source_send, sink_recv}

  unfoldable pub read : ℕ → M State ℕ
  unfolding from_bytes
  read addr = axil_read addr 4 >>= λ bytes. return (from_bytes bytes)

  unfoldable pub write : ℕ → ℕ → M State (Unit {0})
  unfolding to_bytes
  write addr value = lift (to_bytes value) >>= λ bytes. axil_write addr bytes

  unfoldable pub send_tile : List ℤ → M State (Unit {0})
  unfolding raw_beats
  send_tile activations = source_send (raw_beats activations)

  unfoldable pub recv_tile : M State (List ℤ)
  unfolding signed_beats
  recv_tile = sink_recv >>= λ tdata. return (signed_beats tdata)

  unfoldable pub run_tile : List ℤ → M State (List ℤ)
  unfolding send_tile recv_tile
  run_tile activations = send_tile activations >>= λ _. recv_tile

  -- `for _ in range(n)`
  unfoldable pub poll : ℕ → M State (Unit {0})
  unfolding read
  poll zero = raise assertion_error
  poll (suc n) =
      let rest = poll n in
      read reg_status >>= λ status. if status_done status then return tt else rest

  unfoldable pub await_done : M State (Unit {0})
  unfolding poll
  await_done = poll poll_limit
