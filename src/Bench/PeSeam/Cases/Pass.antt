-- ===== src/Bench/PeSeam/Cases/Pass.antt =====
-- The tests of the processing element pass, whatever numpy draws.
use zynq_rtl_flow.Base.{
  ℕ, zero, suc, ◌+◌, ◌^◌, ◌≤◌, ◌<◌, ap, replicate, length-replicate, List, [], ◌∷◌, ◌≡◌, refl,
  arith, All, length, ok,
}
use zynq_rtl_flow.Base.Int.{ℤ, pos, ◌+ℤ◌, ◌*ℤ◌}
use zynq_rtl_flow.Golden.SparseMac.{golden, zip, data_max, data_min}
use zynq_rtl_flow.Golden.Rng.{Rng}
use zynq_rtl_flow.Golden.Draws.{gen_pairs}
use zynq_rtl_flow.Golden.Draws.Range.{gen_pairs_fits, IsPair, Fits, zip-Fits}
use zynq_rtl_flow.Bench.PeSeam.{Sim, check_stream, run_stream, reset_dut, read_acc, read_skip}
use zynq_rtl_flow.Bench.PeSeam.Correct.{
  Holds, check_stream_passes, run_stream-Holds, read_acc-Holds, read_skip-Holds,
}
use zynq_rtl_flow.Rtl.Pe.{clock}
use zynq_rtl_flow.Words.{low_bits, IsSigned}
use zynq_rtl_flow.Bench.PeSeam.Cases.{
  test_dense, test_sparse, test_all_zero, test_saturation_range, test_clear_acc, arange,
  pulse_clear,
}

module _ (rng : Rng) where
  drawn :
      (n sparsity seed : ℕ) (dut : Sim)
      → n < 2 ^ 16
      → let (w, a) = gen_pairs rng n sparsity seed in check_stream dut w a ≡ ok tt
  drawn n sparsity seed dut short =
      let (operands, size) = gen_pairs_fits rng n sparsity seed in
      check_stream_passes dut _ _ operands (omega (arith, size))

  test_dense_passes : (dut : Sim) → test_dense rng dut ≡ ok tt
  unfolding test_dense
  test_dense_passes dut = drawn 64 0 1 dut (omega arith)

  test_sparse_passes : (dut : Sim) → test_sparse rng dut ≡ ok tt
  unfolding test_sparse
  test_sparse_passes dut = drawn 128 70 2 dut (omega arith)

replicate-IsSigned : (n : ℕ) (z : ℤ) → IsSigned 8 z → All (IsSigned 8) (replicate n z)
replicate-IsSigned zero z h = tt
replicate-IsSigned (suc n) z h = (h, replicate-IsSigned n z h)

length-arange : (n first : ℕ) → length (arange first n) ≡ n
unfolding arange
length-arange zero first = refl
length-arange (suc n) first = ap suc (length-arange n (first + 1))

arange-IsSigned : (n first : ℕ) → first + n ≤ 128 → All (IsSigned 8) (arange first n)
unfolding arange
arange-IsSigned zero first h = tt
arange-IsSigned (suc n) first h = (omega arith, arange-IsSigned n (first + 1) (omega arith))

Fits-pass :
    (n : ℕ) (w a : List ℤ) (dut : Sim) → Fits n (w, a) → n < 2 ^ 16 → check_stream dut w a ≡ ok tt
Fits-pass n w a dut fits short =
    let (operands, size) = zip-Fits n (w, a) fits in
    check_stream_passes dut w a operands (omega (arith, size))

test_all_zero_passes : (dut : Sim) → test_all_zero dut ≡ ok tt
unfolding test_all_zero
test_all_zero_passes dut =
    Fits-pass 32 (replicate 32 (pos 0)) (arange 1 32) dut
      (
        replicate-IsSigned 32 (pos 0) (omega arith),
        arange-IsSigned 32 1 (omega arith),
        length-replicate 32 (pos 0),
        length-arange 32 1,
      )
      (omega arith)

test_saturation_range_passes : (dut : Sim) → test_saturation_range dut ≡ ok tt
unfolding test_saturation_range
test_saturation_range_passes dut =
    Fits-pass 100 (replicate 100 data_max) (replicate 100 data_min) dut
      (
        replicate-IsSigned 100 data_max (omega arith),
        replicate-IsSigned 100 data_min (omega arith),
        length-replicate 100 data_max,
        length-replicate 100 data_min,
      )
      (omega arith)

-- One edge with `clear_acc` high zeroes the accumulator and the counter, whatever they held.
pub pulse_clear-Holds :
    {s : Sim} {acc : ℤ} {skip : ℕ} → Holds s acc skip → Holds (pulse_clear s) (pos 0) 0
unfolding pulse_clear clock low_bits
pulse_clear-Holds h = ground arith

-- Behind any tile of the running module, `pulse_clear` reads back as zero.
cleared_reads :
    {s : Sim} {acc : ℤ} {skip : ℕ}
    → Holds s acc skip
    → (read_acc (pulse_clear s) ≡ pos 0) × (read_skip (pulse_clear s) ≡ 0)
cleared_reads h =
    let c = pulse_clear-Holds h in (read_acc-Holds c (omega arith), read_skip-Holds c (omega arith))

abbrev weights : List ℤ
weights = pos 3 ∷ pos 4 ∷ pos 5 ∷ []

abbrev acts : List ℤ
acts = pos 2 ∷ pos 2 ∷ pos 2 ∷ []

operands : All IsPair (zip weights acts)
unfolding zip
operands = omega arith

golden_24 : golden weights acts ≡ (pos 24, 0)
unfolding golden ◌+ℤ◌ ◌*ℤ◌
golden_24 = refl

before_clear : (dut : Sim) → Holds (run_stream (reset_dut dut) weights acts).0 (pos 24) 0
before_clear dut = rw golden_24 at (run_stream-Holds dut weights acts operands)

test_clear_acc_passes : (dut : Sim) → test_clear_acc dut ≡ ok tt
unfolding test_clear_acc
test_clear_acc_passes dut =
    let h = before_clear dut in
    let (p, q) = cleared_reads h in rw (read_acc-Holds h (omega arith), p, q)

-- Every test of the seam passes, from any state of the module and for any draws of the generator.
pub seam_passes :
    (rng : Rng) (dut : Sim)
    → (test_dense rng dut ≡ ok tt)
      × (test_sparse rng dut ≡ ok tt)
      × (test_all_zero dut ≡ ok tt)
      × (test_saturation_range dut ≡ ok tt)
      × (test_clear_acc dut ≡ ok tt)
seam_passes rng dut = (
  test_dense_passes rng dut,
  test_sparse_passes rng dut,
  test_all_zero_passes dut,
  test_saturation_range_passes dut,
  test_clear_acc_passes dut,
)
