-- ===== src/RunTile/Interrupts/Count.antt =====
-- What `irq_count` answers for a text of /proc/interrupts.
use zynq_rtl_flow.Base.{
  ℕ, ◌+◌, List, [], ◌∷◌, none, some, Bool, true, false, ◌≡◌, refl, arith, if◌then◌else◌,
}
use zynq_rtl_flow.Str.{Text, contains}
use zynq_rtl_flow.RunTile.Interrupts.{irq_name, file_lines, line_count, count_lines, irq_count}

-- The controller's lines, counted with no running total.
unfoldable pub total_of : List Text → ℕ
total_of [] = 0
total_of (line ∷ lines) = (if contains irq_name line then line_count line else 0) + total_of lines

unfoldable pub any_line : List Text → Bool
any_line [] = false
any_line (line ∷ lines) = let rest = any_line lines in if contains irq_name line then true else rest

count_lines-some :
    (n : ℕ) (lines : List Text) → count_lines (some n) lines ≡ some (n + total_of lines)
unfolding total_of count_lines
count_lines-some n [] = ground arith
count_lines-some n (line ∷ lines) =
    ground (arith, count_lines-some n lines, count_lines-some (n + line_count line) lines)

count_lines-none :
    (lines : List Text)
    → count_lines none lines ≡ (if any_line lines then some (total_of lines) else none)
unfolding count_lines any_line total_of
count_lines-none [] = refl
count_lines-none (line ∷ lines) =
    ground (arith, count_lines-none lines, count_lines-some (line_count line) lines)

-- The loop answers `None` exactly when no line names the controller, and otherwise the sum over the
-- lines that do.
pub irq_count_lem :
    (text : Text)
    → irq_count text
      ≡ (if any_line (file_lines text) then some (total_of (file_lines text)) else none)
unfolding irq_count
irq_count_lem text = count_lines-none (file_lines text)
