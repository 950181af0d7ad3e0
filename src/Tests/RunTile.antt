-- ===== src/Tests/RunTile.antt =====
-- The theorems on driver/run-tile.py at concrete inputs.
use zynq_rtl_flow.Base.{[], ◌∷◌, ℕ, List, ◌≡◌, ◌≢◌, ◌++◌, ◌+◌, ap, ◌∙◌, refl, ok, some, arith}
use zynq_rtl_flow.Base.Int.{◌+ℤ◌, ◌*ℤ◌, pos, negsuc}
use zynq_rtl_flow.Words.{low_bits, signed}
use zynq_rtl_flow.Str.{Text, text_eq, decimal, codes}
use zynq_rtl_flow.Golden.SparseMac.{golden_from, golden, zip}
use zynq_rtl_flow.Golden.Draws.{gen_pairs}
use zynq_rtl_flow.RunTile.Bytes.{pack_beats}
use zynq_rtl_flow.RunTile.Bytes.RoundTrip.{operands_of, result_bytes, operands_of-pack_beats}
use zynq_rtl_flow.RunTile.Interrupts.{irq_count}
use zynq_rtl_flow.RunTile.Runners.{run_sparse_cnn}
use zynq_rtl_flow.RunTile.Main.{main, choose, sparse_cnn}
use zynq_rtl_flow.RunTile.Main.Verdict.{Verified, main_zero}
use zynq_rtl_flow.RunTile.Main.Success.{main-success}
use zynq_rtl_flow.RunTile.Runners.Sparse.{Answers, answer_to}
use zynq_rtl_flow.Tests.Fixtures.{lowest, sparse_board, idle, Device}

abbrev after_run : Device
after_run = (main sparse_board lowest [] idle).1

main_run : main sparse_board lowest [] idle ≡ (ok 0, after_run)
unfolding main irq_count decimal run_sparse_cnn result_bytes signed low_bits golden_from operands_of
    zip gen_pairs ◌+ℤ◌ ◌*ℤ◌ golden
main_run = refl

main_zero_example : Verified sparse_board lowest [] idle after_run
main_zero_example = main_zero sparse_board lowest [] idle after_run main_run

operands_of-pack_beats_example :
    operands_of (pack_beats ((pos 3, negsuc 4) ∷ (negsuc 127, pos 127) ∷ []))
    ≡ (pos 3, negsuc 4) ∷ (negsuc 127, pos 127) ∷ []
operands_of-pack_beats_example =
    operands_of-pack_beats ((pos 3, negsuc 4) ∷ (negsuc 127, pos 127) ∷ []) (omega arith)

abbrev two_lines : Text
two_lines = codes " 45: 12 3 GICv2 xilinx-dma-controller\n 46: 5 uart\n"

-- the states of the device behind `n` tiles: one interrupt each
abbrev Raised : ℕ → Device → Type 0
Raised n s = s.raised ≡ n

abbrev written : List ℕ → Device → Device
written bytes s = record { raised = s.raised + 1; answer = answer_to bytes }

abbrev answers : Answers sparse_board Raised
answers = record {
  written = λ n s bytes h. written bytes s;
  answered = λ n s bytes h. written bytes s;
  writes = λ n s bytes h. refl;
  reads = λ n s bytes h. refl;
  serves = λ n s bytes h. omega (arith, h);
}

abbrev lines_of : ℕ → Text
lines_of n = codes " 45: " ++ decimal n ++ codes " GICv2 xilinx-dma-controller\n"

none_raised : irq_count (lines_of 0) ≡ some 0
unfolding irq_count decimal
none_raised = refl

five_raised : irq_count (lines_of 5) ≡ some 5
unfolding irq_count decimal
five_raised = refl

different : ◌≢◌ {A = ℕ} 5 0
different e = omega (arith, e)

picks : choose sparse_board lowest [] idle ≡ (ok sparse_cnn, idle)
unfolding choose text_eq
picks = refl

main-success_example : (t : Device) × (main sparse_board lowest [] idle ≡ (ok 0, t)) × Raised 5 t
main-success_example =
    main-success sparse_board lowest Raised answers [] 0 idle idle picks none_raised refl refl
      (λ t h. (5, ap (λ x. irq_count (lines_of x)) h ∙ five_raised, different))
