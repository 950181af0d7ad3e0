-- ===== src/Tests/Bench.antt =====
-- The theorems on the testbench of sparse_mac_pe, on relu_unit and on the golden models at concrete
-- inputs.
use zynq_rtl_flow.Base.{List, [], ◌∷◌, ◌≡◌, refl, ok, arith, true, false, map, All, length}
use zynq_rtl_flow.Base.Int.{ℤ, pos, negsuc}
use zynq_rtl_flow.Words.{low_bits, signed}
use zynq_rtl_flow.Golden.SparseMac
use zynq_rtl_flow.Golden.Relu
use zynq_rtl_flow.Golden.Draws.{gen_pairs}
use zynq_rtl_flow.Golden.Draws.Range.{IsPair, gen_pairs_fits}
use zynq_rtl_flow.Rtl.ReluUnit.{relu_unit}
use zynq_rtl_flow.Rtl.ReluUnit.Golden.{map-relu_unit}
use zynq_rtl_flow.Bench.PeSeam.{Sim, check_stream}
use zynq_rtl_flow.Bench.PeSeam.Correct.{Holds, check_stream_passes}
use zynq_rtl_flow.Bench.PeSeam.Cases.{
  test_dense, test_sparse, test_all_zero, test_saturation_range, test_clear_acc,
}
use zynq_rtl_flow.Bench.PeSeam.Cases.Pass.{seam_passes}
use zynq_rtl_flow.Tests.Fixtures.{lowest}

-- a module that runs with stale registers
abbrev running : Sim
running = record {
  pins = record {
    rst_n = true;
    en = true;
    clear_acc = false;
    valid_in = true;
    weight = 7;
    act = 200;
  };
  pe = record { acc = 4294967000; skip_count = 65535; valid_out = true };
}

running-Holds : Holds running (negsuc 295) 65535
unfolding low_bits
running-Holds = record {
  running = refl;
  enabled = refl;
  kept = refl;
  acc_is = refl;
  skip_is = refl;
}

check_stream_passes_example :
    check_stream running (pos 3 ∷ pos 0 ∷ negsuc 127 ∷ []) (negsuc 4 ∷ pos 9 ∷ negsuc 127 ∷ [])
    ≡ ok tt
check_stream_passes_example =
    check_stream_passes running (pos 3 ∷ pos 0 ∷ negsuc 127 ∷ [])
      (negsuc 4 ∷ pos 9 ∷ negsuc 127 ∷ []) (unfold SparseMac.zip in omega arith)
      (unfold SparseMac.zip in omega arith)

seam_passes_example :
    (test_dense lowest running ≡ ok tt)
    × (test_sparse lowest running ≡ ok tt)
    × (test_all_zero running ≡ ok tt)
    × (test_saturation_range running ≡ ok tt)
    × (test_clear_acc running ≡ ok tt)
seam_passes_example = seam_passes lowest running

map-relu_unit_example :
    map (λ x. signed 8 (relu_unit (low_bits 8 x) 25)) (negsuc 127 ∷ pos 127 ∷ negsuc 0 ∷ [])
    ≡ Relu.golden (negsuc 127 ∷ pos 127 ∷ negsuc 0 ∷ []) 25
map-relu_unit_example =
    map-relu_unit (negsuc 127 ∷ pos 127 ∷ negsuc 0 ∷ []) 25 (omega arith) (omega arith)

abbrev drawn : List ℤ × List ℤ
drawn = gen_pairs lowest 16 50 3

gen_pairs_fits_example :
    All IsPair (SparseMac.zip (drawn.0) (drawn.1))
    × (length (SparseMac.zip (drawn.0) (drawn.1)) ≡ 16)
gen_pairs_fits_example = gen_pairs_fits lowest 16 50 3
