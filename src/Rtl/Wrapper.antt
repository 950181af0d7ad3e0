-- ===== src/Rtl/Wrapper.antt =====
-- rtl/sparse_cnn_axi.sv at its default widths, around its AXI4-Lite channels. Of the control register the three bits of CtrlMask are kept: the others
-- are 0 from reset on, and all three lie in the byte of strobe 0.
pub mod Edges
pub mod Tile
pub mod Status
use zynq_rtl_flow.Base.{
  ℕ, ◌+◌, ◌*◌, ◌/◌, ◌%◌, ◌^◌, ◌==◌, Bool, true, false, ◌&&◌, ◌||◌, not, if◌then◌else◌,
}
use zynq_rtl_flow.Words.{test_bit}
use zynq_rtl_flow.Rtl.AxiLite.{
  LiteMaster, WriteChannel, ReadChannel, wr_commit, wr_addr, wr_data, wr_strb, reset_write,
  next_write, reset_read, next_read,
}
use zynq_rtl_flow.Rtl.Pe.{Pins, Pe}
use zynq_rtl_flow.Rtl.Pe

pub data TileState : Type 0 where
  s_idle s_clear s_run s_latch : TileState

-- the inputs
pub record Ports : Type 0 where
  pub aresetn : Bool
  pub lite : LiteMaster
  pub tdata : ℕ
  pub tvalid : Bool
  pub tlast : Bool

-- `ctrl_reg`
pub record Ctrl : Type 0 where
  pub start_pulse : Bool
  pub clear_pulse : Bool
  pub en_reg : Bool

-- the registers, those of the PE included
pub record Wrapper : Type 0 where
  pub state : TileState
  pub ctrl : Ctrl
  pub done_q : Bool
  pub acc_q : ℕ
  pub skip_q : ℕ
  pub write : WriteChannel
  pub read : ReadChannel
  pub pe : Pe

abbrev pub is_idle : TileState → Bool
is_idle s_idle = true
is_idle _ = false

abbrev pub is_clear : TileState → Bool
is_clear s_clear = true
is_clear _ = false

abbrev pub is_run : TileState → Bool
is_run s_run = true
is_run _ = false

abbrev pub ctrl_wr : Ports → Wrapper → Bool
ctrl_wr p w = wr_commit p.lite w.write && wr_addr p.lite w.write == 4

-- the control register behind an edge out of reset
unfoldable pub next_ctrl : Ports → Wrapper → Ctrl
next_ctrl p w =
    if ctrl_wr p w && test_bit (wr_strb p.lite w.write) 0
    then record {
      start_pulse = test_bit (wr_data p.lite w.write) 0;
      clear_pulse = test_bit (wr_data p.lite w.write) 1;
      en_reg = test_bit (wr_data p.lite w.write) 2;
    }
    else record { start_pulse = false; clear_pulse = false; en_reg = w.ctrl.en_reg }

abbrev pub start_taken : Ports → Wrapper → Bool
start_taken p w =
    w.ctrl.start_pulse
    || (ctrl_wr p w && (test_bit (wr_strb p.lite w.write) 0 && test_bit (wr_data p.lite w.write) 0))

abbrev pub word_bit : Bool → ℕ
word_bit b = if b then 1 else 0

unfoldable pub status_word : Ports → Wrapper → ℕ
status_word p w =
    word_bit (not (is_idle w.state) || start_taken p w)
    + 2 * word_bit (w.done_q && not (start_taken p w))

unfoldable pub rd_mux : Ports → Wrapper → ℕ
unfolding status_word
rd_mux p w =
    if p.lite.araddr == 0
    then 1397752064
    else if p.lite.araddr == 4
    then word_bit w.ctrl.start_pulse + 2 * word_bit w.ctrl.clear_pulse + 4 * word_bit w.ctrl.en_reg
    else if p.lite.araddr == 8
    then status_word p w
    else if p.lite.araddr == 12
    then w.acc_q
    else if p.lite.araddr == 16
    then w.skip_q
    else 0

abbrev pub tready : Wrapper → Bool
tready w = is_run w.state && (w.ctrl.en_reg && not w.ctrl.clear_pulse)

abbrev pub takes_beat : Ports → Wrapper → Bool
takes_beat p w = p.tvalid && tready w

abbrev pub pe_clear : Wrapper → Bool
pe_clear w = is_clear w.state || w.ctrl.clear_pulse

unfoldable pub pe_pins : Ports → Wrapper → Pins
pe_pins p w = record {
  rst_n = p.aresetn;
  en = takes_beat p w || pe_clear w;
  clear_acc = pe_clear w;
  valid_in = takes_beat p w;
  weight = p.tdata % 2 ^ 8;
  act = p.tdata / 2 ^ 8 % 2 ^ 8;
}

unfoldable pub next_state : Ports → Wrapper → TileState
next_state p w = elim w.state [
  | s_idle ↦ if w.ctrl.start_pulse then s_clear else s_idle
  | s_clear ↦ s_run
  | s_run ↦ if takes_beat p w && p.tlast then s_latch else s_run
  | s_latch ↦ s_idle
]

-- DONE behind an edge: set by a latch, dropped by a start
unfoldable pub next_done : Wrapper → Bool
next_done w = elim w.state [
  | s_idle ↦ if w.ctrl.start_pulse then false else w.done_q
  | s_latch ↦ true
  | _ ↦ w.done_q
]

-- a result register behind an edge, for what the PE holds; an explicit clear wins over a latch
unfoldable pub next_result : Wrapper → ℕ → ℕ → ℕ
next_result w held latched =
    if w.ctrl.clear_pulse
    then 0
    else elim w.state [ s_latch ↦ latched | s_idle ↦ held | s_clear ↦ held | s_run ↦ held ]

-- an edge of `aclk` under reset: what has no reset keeps its value
unfoldable pub clock_reset : Ports → Wrapper → Wrapper
unfolding pe_pins reset_write
clock_reset p w = record w {
  state = s_idle;
  ctrl = record { start_pulse = false; clear_pulse = false; en_reg = true };
  done_q = false;
  acc_q = 0;
  skip_q = 0;
  write = reset_write w.write;
  read = reset_read;
  pe = Pe.clock (pe_pins p w) w.pe;
}

-- an edge of `aclk` out of reset
unfoldable pub clock_run : Ports → Wrapper → Wrapper
unfolding pe_pins next_ctrl next_state next_done next_result rd_mux next_write next_read
clock_run p w = record {
  state = next_state p w;
  ctrl = next_ctrl p w;
  done_q = next_done w;
  acc_q = next_result w w.acc_q w.pe.acc;
  skip_q = next_result w w.skip_q w.pe.skip_count;
  write = next_write p.lite w.write;
  read = next_read p.lite (rd_mux p w) w.read;
  pe = Pe.clock (pe_pins p w) w.pe;
}

unfoldable pub aclk_edge : Ports → Wrapper → Wrapper
unfolding clock_reset clock_run
aclk_edge p w = if p.aresetn then clock_run p w else clock_reset p w
