-- ===== src/Golden/SparseMac/Laws.antt =====
-- Reading back what the testbenches drive onto a port.
use zynq_rtl_flow.Base.{ℕ, suc, ◌≡◌}
use zynq_rtl_flow.Base.Int.{ℤ, pos}
use zynq_rtl_flow.Words.{low_bits, signed, IsSigned}
use zynq_rtl_flow.Words.Laws
use zynq_rtl_flow.Golden.SparseMac.{to_signed}

-- `to_signed` undoes the mask, at every width, on what the width can hold.
pub to_signed-low_bits :
    (k : ℕ) (z : ℤ) → IsSigned (suc k) z → to_signed (pos (low_bits (suc k) z)) (suc k) ≡ z
unfolding to_signed
to_signed-low_bits k z fits =
    rw (Laws.low_bits_idem (suc k) z) (unfold signed in Laws.signed-low_bits k z fits)
