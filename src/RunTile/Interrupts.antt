-- ===== src/RunTile/Interrupts.antt =====
-- `irq_count` of driver/run-tile.py.
pub mod Count
use zynq_rtl_flow.Base.{ℕ, ◌+◌, List, [], ◌∷◌, Option, none, some, Bool, ◌==◌, if◌then◌else◌}
use zynq_rtl_flow.Str.{Text, codes, push, contains, split, isdigit, number}

abbrev pub irq_name : Text
irq_name = codes "xilinx-dma-controller"

-- the lines of a file, as iteration over it gives them, less their newlines
unfoldable pub file_lines : Text → List Text
unfolding push
file_lines [] = []
file_lines (c ∷ cs) = let rest = file_lines cs in if c == b'\n' then [] ∷ rest else push c rest

-- `sum(int(f) for f in fields if f.isdigit())`
unfoldable pub sum_fields : List Text → ℕ
unfolding isdigit number
sum_fields [] = 0
sum_fields (f ∷ fields) = (if isdigit f then number 0 f else 0) + sum_fields fields

abbrev pub rest_of : List Text → List Text
rest_of [] = []
rest_of (_ ∷ fields) = fields

-- what one line of the controller adds
unfoldable pub line_count : Text → ℕ
unfolding split sum_fields
line_count line = sum_fields (rest_of (split line))

-- `total or 0`
abbrev pub or_zero : Option ℕ → ℕ
or_zero none = 0
or_zero (some n) = n

unfoldable pub count_lines : Option ℕ → List Text → Option ℕ
unfolding contains line_count
count_lines total [] = total
count_lines total (line ∷ lines) =
    count_lines (if contains irq_name line then some (or_zero total + line_count line) else total)
      lines

unfoldable pub irq_count : Text → Option ℕ
unfolding file_lines count_lines
irq_count text = count_lines none (file_lines text)
