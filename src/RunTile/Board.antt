-- ===== src/RunTile/Board.antt =====
-- What driver/run-tile.py asks of the operating system and the board: files and devices.
use zynq_rtl_flow.Base.{ℕ, Bool, List}
use zynq_rtl_flow.Str.{Text}
use zynq_rtl_flow.Effects.{M}

pub record Board : Type 1 where
  pub State : Type 0
  -- `os.path.exists`
  pub exists : Text → State → Bool
  -- the text of /proc/interrupts
  pub interrupts : State → Text
  -- `os.open` of a device, `os.write` and `os.read` on it, and `os.close`
  pub open_device : Text → M State (Unit {0})
  pub write : List ℕ → M State (Unit {0})
  pub read : ℕ → M State (List ℕ)
  pub close : State → State
  -- writing a text to the file that holds the slope
  pub write_slope : Text → M State (Unit {0})
