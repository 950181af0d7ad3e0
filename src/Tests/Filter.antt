-- ===== src/Tests/Filter.antt =====
-- `run_relu` and `gen_activations` at concrete inputs: a device that keeps the text of the slope and
-- filters what it is written.
use zynq_rtl_flow.Base.{ℕ, ◌*◌, ◌/◌, List, [], ◌++◌, true, ◌≡◌, refl, ap, ◌∙◌, ok, arith, length}
use zynq_rtl_flow.Str.{Text, codes, decimal, number}
use zynq_rtl_flow.Str.Numbers.{number-decimal}
use zynq_rtl_flow.RunTile.Board.{Board}
use zynq_rtl_flow.RunTile.Runners.{run_relu}
use zynq_rtl_flow.RunTile.Runners.Filter.{Filters, filtered, run_relu-all}
use zynq_rtl_flow.Tests.Fixtures.{lowest}

record Device : Type 0 where
  slope : Text
  answer : List ℕ

-- the newline reads as one more digit, a zero
abbrev slope_of : Text → ℕ
slope_of text = number 0 text / 10

abbrev relu_board : Board
relu_board = record {
  State = Device;
  exists = λ _ _. true;
  interrupts = λ _. [];
  open_device = λ _ s. (ok tt, s);
  write = λ bytes s. (ok tt, record s { answer = filtered (slope_of s.slope) bytes });
  read = λ _ s. (ok s.answer, s);
  close = λ s. s;
  write_slope = λ text s. (ok tt, record s { slope = text });
}

newline-number : (k : ℕ) → number k (codes "\n") ≡ k * 10
unfolding number
newline-number k = omega arith

slope_of-decimal : (k : ℕ) → slope_of (decimal k ++ codes "\n") ≡ k
slope_of-decimal k = ap (λ x. x / 10) (number-decimal k (codes "\n") ∙ newline-number k) ∙ tenth k
  where
    tenth : (m : ℕ) → m * 10 / 10 ≡ m
    tenth m = omega arith

abbrev Any : Device → Type 0
Any _ = Unit

abbrev sloped : Device → ℕ → Device
sloped s k = record s { slope = decimal k ++ codes "\n" }

abbrev fed : Device → ℕ → List ℕ → Device
fed s k bytes = record (sloped s k) { answer = filtered (slope_of (decimal k ++ codes "\n")) bytes }

reads_back :
    (s : Device) (k : ℕ) (bytes : List ℕ)
    → relu_board.read (length bytes) (fed s k bytes) ≡ (ok (filtered k bytes), fed s k bytes)
reads_back s k bytes = ap (λ x. (ok (filtered x bytes), fed s k bytes)) (slope_of-decimal k)

abbrev filters : Filters relu_board Any
filters = record {
  filters = λ s k bytes h small.
      (sloped s k, fed s k bytes, fed s k bytes, refl, refl, reads_back s k bytes, tt);
}

abbrev fresh : Device
fresh = record { slope = []; answer = [] }

run_relu-all_example : (t : Device) × (run_relu relu_board lowest fresh ≡ (ok (5, 5), t)) × Any t
run_relu-all_example = run_relu-all relu_board lowest Any filters fresh tt
