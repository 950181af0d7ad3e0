-- ===== src/Bench/PeSeam/Correct.antt =====
-- The testbench's check of sparse_mac_pe passes on every tile that the tests can draw.
use native.Mathlib.Nat.{mul-le-mul}
use zynq_rtl_flow.Base.{
  ℕ, suc, ◌+◌, ◌*◌, ◌%◌, ◌^◌, ◌≤◌, ◌<◌, ◌==◌, ◌≡◌, true, false, List, [], ◌∷◌, ok, ◌>>=◌, ==_refl,
  arith, All, length, if◌then◌else◌,
}
use zynq_rtl_flow.Base.Int.{ℤ, pos, negsuc, ◌==ℤ◌, ==ℤ_refl, ◌+ℤ◌, ◌*ℤ◌, pos_part, neg_part}
use zynq_rtl_flow.Words.{low_bits, IsSigned}
use zynq_rtl_flow.Words.Laws
use zynq_rtl_flow.Golden.SparseMac.Laws.{to_signed-low_bits}
use zynq_rtl_flow.Golden.SparseMac.{golden, golden_from, zip, skipped}
use zynq_rtl_flow.Golden.Draws.Range.{IsPair}
use zynq_rtl_flow.Rtl.Pe.{Pins, clock, product}
use zynq_rtl_flow.Bench.PeSeam.{
  Sim, rising_edge, feed, run_stream, reset_dut, check_stream, read_acc, read_skip, check, offer,
}

-- An operand that the testbench drives is read by the module as the operand.
low_bits-zero : (z : ℤ) → IsSigned 8 z → (low_bits 8 z == 0) ≡ (z ==ℤ pos 0)
unfolding low_bits
low_bits-zero z h = ground arith

product-offer :
    (w a : ℤ) (p : Pins)
    → IsSigned 8 w
    → IsSigned 8 a
    → product (offer w a p) ≡ low_bits 32 (w *ℤ a)
unfolding product
product-offer w a p hw ha = rw (Laws.signed-low_bits8 w hw, Laws.signed-low_bits8 a ha)

-- The registers hold `acc` and `skip` in their widths, and the module is running.
pub record Holds (s : Sim) (acc : ℤ) (skip : ℕ) : Type 0 where
  pub running : s.pins.rst_n ≡ true
  pub enabled : s.pins.en ≡ true
  pub kept : s.pins.clear_acc ≡ false
  pub acc_is : s.pe.acc ≡ low_bits 32 acc
  pub skip_is : s.pe.skip_count ≡ skip % 2 ^ 16

edge-Holds :
    {s : Sim} {acc : ℤ} {skip : ℕ} (w a : ℤ)
    → IsSigned 8 w
    → IsSigned 8 a
    → Holds s acc skip
    → Holds
        (rising_edge (record s { pins = offer w a s.pins }))
        (if skipped w a then acc else acc +ℤ w *ℤ a)
        (if skipped w a then skip + 1 else skip)
unfolding rising_edge clock
edge-Holds {s} {acc} {skip} w a hw ha h = ground (
  arith,
  low_bits-zero w hw,
  low_bits-zero a ha,
  product-offer w a s.pins hw ha,
  Laws.low_bits32-add acc (w *ℤ a),
)

feed-Holds :
    (pairs : List (ℤ × ℤ)) (s : Sim) (acc : ℤ) (skip : ℕ)
    → All IsPair pairs
    → Holds s acc skip
    → Holds (feed s pairs) (golden_from acc skip pairs).0 (golden_from acc skip pairs).1
unfolding feed golden_from
feed-Holds [] s acc skip _ h = h
feed-Holds ((w, a) ∷ pairs) s acc skip ps h =
    feed-Holds pairs (rising_edge (record s { pins = offer w a s.pins }))
      (if skipped w a then acc else acc +ℤ w *ℤ a) (if skipped w a then skip + 1 else skip) ps.1
      (edge-Holds w a ps.0.0 ps.0.1 h)

-- After reset the registers are clear, whatever they held.
reset_dut-Holds : (s : Sim) → Holds (reset_dut s) (pos 0) 0
unfolding reset_dut clock low_bits
reset_dut-Holds s = ground arith

abbrev magnitude : ℤ → ℕ
magnitude z = pos_part z + neg_part z

product_le : (m n : ℕ) → m ≤ 128 → n ≤ 128 → m * n ≤ 128 * 128
product_le m n p q = mul-le-mul p q

magnitude-mul : (w a : ℤ) → IsSigned 8 w → IsSigned 8 a → magnitude (w *ℤ a) ≤ 16384
unfolding ◌*ℤ◌
magnitude-mul (pos m) (pos n) hw ha = ground (arith, product_le m n)
magnitude-mul (pos m) (negsuc n) hw ha = ground (arith, product_le m (suc n))
magnitude-mul (negsuc m) (pos n) hw ha = ground (arith, product_le (suc m) n)
magnitude-mul (negsuc m) (negsuc n) hw ha = ground (arith, product_le (suc m) (suc n))

magnitude-add : (a b : ℤ) → magnitude (a +ℤ b) ≤ magnitude a + magnitude b
unfolding ◌+ℤ◌
magnitude-add a b = ground arith

golden_from_bounds :
    (acc : ℤ) (skip : ℕ) (pairs : List (ℤ × ℤ))
    → All IsPair pairs
    → (magnitude (golden_from acc skip pairs).0 ≤ magnitude acc + 16384 * length pairs)
      × ((golden_from acc skip pairs).1 ≤ skip + length pairs)
unfolding golden_from
golden_from_bounds acc skip [] _ = omega arith
golden_from_bounds acc skip ((w, a) ∷ pairs) ps = ground (
  arith,
  magnitude-mul w a ps.0.0 ps.0.1,
  magnitude-add acc (w *ℤ a),
  golden_from_bounds (if skipped w a then acc else acc +ℤ w *ℤ a)
      (if skipped w a then skip + 1 else skip) pairs ps.1,
)

-- What the testbench reads of the registers after the last edge.
idle-Holds :
    {s : Sim} {acc : ℤ} {skip : ℕ}
    → Holds s acc skip
    → Holds (rising_edge (record s { pins = record (s.pins) { valid_in = false } })) acc skip
unfolding rising_edge clock
idle-Holds h = ground arith

pub read_acc-Holds :
    {s : Sim} {acc : ℤ} {skip : ℕ} → Holds s acc skip → IsSigned 32 acc → read_acc s ≡ acc
unfolding read_acc
read_acc-Holds h fits = rw (h.acc_is) (to_signed-low_bits 31 _ fits)

pub read_skip-Holds :
    {s : Sim} {acc : ℤ} {skip : ℕ} → Holds s acc skip → skip < 2 ^ 16 → read_skip s ≡ skip
unfolding read_skip
read_skip-Holds h fits = omega arith

pub run_stream-Holds :
    (s : Sim) (weights acts : List ℤ)
    → All IsPair (zip weights acts)
    → Holds
        (run_stream (reset_dut s) weights acts).0
        (golden weights acts).0
        (golden weights acts).1
unfolding run_stream golden
run_stream-Holds s weights acts operands =
    idle-Holds (feed-Holds (zip weights acts) (reset_dut s) (pos 0) 0 operands (reset_dut-Holds s))

pub golden_bounds :
    (weights acts : List ℤ)
    → All IsPair (zip weights acts)
    → length (zip weights acts) < 2 ^ 16
    → IsSigned 32 (golden weights acts).0 × ((golden weights acts).1 < 2 ^ 16)
unfolding golden
golden_bounds weights acts operands short =
    omega (arith, golden_from_bounds (pos 0) 0 (zip weights acts) operands)

pub checks_pass :
    (t : Sim) {acc : ℤ} {skip : ℕ}
    → read_acc t ≡ acc
    → read_skip t ≡ skip
    → (check (read_acc t ==ℤ acc) >>= λ _. check (read_skip t == skip)) ≡ ok tt
checks_pass t p q = rw (← p, ← q, ==ℤ_refl, ==_refl)

-- `_check_stream` passes on every stream of fewer than 65536 pairs of signed bytes, whatever the
-- registers hold before the reset: the accumulator and the skip counter end at the golden values.
pub check_stream_passes :
    (s : Sim) (weights acts : List ℤ)
    → All IsPair (zip weights acts)
    → length (zip weights acts) < 2 ^ 16
    → check_stream s weights acts ≡ ok tt
unfolding check_stream
check_stream_passes s weights acts operands short =
    let h = run_stream-Holds s weights acts operands in
    let fits = golden_bounds weights acts operands short in
    checks_pass (run_stream (reset_dut s) weights acts).0 (read_acc-Holds h fits.0)
      (read_skip-Holds h fits.1)
