-- ===== src/Rtl/ReluAxi.antt =====
-- rtl/relu_axi.sv at its default widths, around its AXI4-Lite channels and the activation unit. Of the
-- control register the bit of CtrlMask is kept: the others are 0 from reset on, and it lies in the
-- byte of strobe 0.
pub mod Stream
pub mod Accounting
pub mod Tile
pub mod Golden
pub mod Registers
use zynq_rtl_flow.Base.{
  ℕ, ◌+◌, ◌*◌, ◌%◌, ◌^◌, ◌==◌, Bool, true, false, ◌&&◌, ◌||◌, not, if◌then◌else◌,
}
use zynq_rtl_flow.Words.{test_bit}
use zynq_rtl_flow.Golden.Relu.{slope_reset}
use zynq_rtl_flow.Rtl.AxiLite.{
  LiteMaster, WriteChannel, ReadChannel, wr_commit, wr_addr, wr_data, wr_strb, reset_write,
  next_write, reset_read, next_read,
}
use zynq_rtl_flow.Rtl.ReluUnit.{relu_unit}

-- the inputs
pub record ReluPorts : Type 0 where
  pub aresetn : Bool
  pub lite : LiteMaster
  pub tdata : ℕ
  pub tvalid : Bool
  pub tlast : Bool
  pub m_tready : Bool

-- the output register of the stream
pub record Stage : Type 0 where
  pub out_valid_q : Bool
  pub out_last_q : Bool
  pub out_data_q : ℕ

-- the tile accounting
pub record Account : Type 0 where
  pub busy_q : Bool
  pub done_q : Bool
  pub beats_q : ℕ
  pub count_q : ℕ

pub record ReluAxi : Type 0 where
  pub en_reg : Bool
  pub slope_reg : ℕ
  pub stage : Stage
  pub account : Account
  pub write : WriteChannel
  pub read : ReadChannel

-- a write of the register at an address
abbrev pub reg_wr : ℕ → ReluPorts → ReluAxi → Bool
reg_wr addr p w = wr_commit p.lite w.write && wr_addr p.lite w.write == addr

-- the writable registers behind an edge out of reset
unfoldable pub next_en : ReluPorts → ReluAxi → Bool
next_en p w =
    if reg_wr 4 p w && test_bit (wr_strb p.lite w.write) 0
    then test_bit (wr_data p.lite w.write) 0
    else w.en_reg

unfoldable pub next_slope : ReluPorts → ReluAxi → ℕ
next_slope p w =
    if reg_wr 12 p w && test_bit (wr_strb p.lite w.write) 0
    then wr_data p.lite w.write % 2 ^ 8
    else w.slope_reg

abbrev pub s_tready : ReluPorts → ReluAxi → Bool
s_tready p w = w.en_reg && (not w.stage.out_valid_q || p.m_tready)

abbrev pub in_fire : ReluPorts → ReluAxi → Bool
in_fire p w = p.tvalid && s_tready p w

abbrev pub out_fire : ReluPorts → ReluAxi → Bool
out_fire p w = w.stage.out_valid_q && p.m_tready

abbrev pub tile_done : ReluPorts → ReluAxi → Bool
tile_done p w = out_fire p w && w.stage.out_last_q

-- the output register behind an edge, for a beat taken and one handed over
unfoldable pub next_stage : Bool → Bool → Bool → ℕ → Stage → Stage
next_stage taken handed last activated s = record {
  out_valid_q = if taken then true else if handed then false else s.out_valid_q;
  out_last_q = if taken then last else if handed then false else s.out_last_q;
  out_data_q = if taken then activated else s.out_data_q;
}

-- the accounting behind an edge, for a beat taken and a tile done
unfoldable pub next_account : Bool → Bool → Account → Account
next_account taken done a = record {
  busy_q = if done then false else if taken then true else a.busy_q;
  done_q = if done then true else if taken && not a.busy_q then false else a.done_q;
  beats_q = if done then 0 else if taken then (a.beats_q + 1) % 2 ^ 16 else a.beats_q;
  count_q = if done then (if taken then (a.beats_q + 1) % 2 ^ 16 else a.beats_q) else a.count_q;
}

abbrev pub relu_status : ReluAxi → ℕ
relu_status w = (if w.account.busy_q then 1 else 0) + 2 * (if w.account.done_q then 1 else 0)

unfoldable pub relu_mux : ReluPorts → ReluAxi → ℕ
relu_mux p w =
    if p.lite.araddr == 0
    then 1380712704
    else if p.lite.araddr == 4
    then (if w.en_reg then 1 else 0)
    else if p.lite.araddr == 8
    then relu_status w
    else if p.lite.araddr == 12
    then w.slope_reg
    else if p.lite.araddr == 16
    then w.account.count_q
    else 0

abbrev pub reset_stage : Stage
reset_stage = record { out_valid_q = false; out_last_q = false; out_data_q = 0 }

abbrev pub reset_account : Account
reset_account = record { busy_q = false; done_q = false; beats_q = 0; count_q = 0 }

-- an edge of `aclk` under reset
unfoldable pub relu_reset : ReluAxi → ReluAxi
unfolding reset_write
relu_reset w = record {
  en_reg = true;
  slope_reg = slope_reset;
  stage = reset_stage;
  account = reset_account;
  write = reset_write w.write;
  read = reset_read;
}

-- an edge of `aclk` out of reset
unfoldable pub relu_run : ReluPorts → ReluAxi → ReluAxi
unfolding next_en next_slope next_stage next_account relu_mux next_write next_read relu_unit
relu_run p w = record {
  en_reg = next_en p w;
  slope_reg = next_slope p w;
  stage = next_stage (in_fire p w) (out_fire p w) p.tlast (relu_unit p.tdata w.slope_reg) w.stage;
  account = next_account (in_fire p w) (tile_done p w) w.account;
  write = next_write p.lite w.write;
  read = next_read p.lite (relu_mux p w) w.read;
}

unfoldable pub relu_edge : ReluPorts → ReluAxi → ReluAxi
unfolding relu_reset relu_run
relu_edge p w = if p.aresetn then relu_run p w else relu_reset w
