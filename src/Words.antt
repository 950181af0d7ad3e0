-- ===== src/Words.antt =====
-- Two's complement words: what `& mask` keeps of an integer (tb/model), and the integer that the
-- bits of a signed port stand for (rtl).
pub mod Laws
use zynq_rtl_flow.Base.{ℕ, ◌+◌, ◌-◌, ◌/◌, ◌%◌, ◌^◌, ◌≤◌, ◌<◌, ◌==◌, Bool, if◌then◌else◌}
use zynq_rtl_flow.Base.Int.{ℤ, pos, negsuc, pos_part, neg_part, sub_ℕ}

-- `z & ((1 << w) - 1)` for a Python integer of either sign
unfoldable pub low_bits : ℕ → ℤ → ℕ
low_bits w (pos n) = n % 2 ^ w
low_bits w (negsuc n) = 2 ^ w - 1 - n % 2 ^ w

-- `raw & (1 << i)` as a truth value
abbrev pub test_bit : ℕ → ℕ → Bool
test_bit raw i = raw / 2 ^ i % 2 == 1

-- the value of `w` bits that already lie below `2 ^ w`
unfoldable pub signed : ℕ → ℕ → ℤ
signed w r = if test_bit r (w - 1) then sub_ℕ r (2 ^ w) else pos r

-- what a signed variable of `w` bits can hold
abbrev pub IsSigned : ℕ → ℤ → Type 0
IsSigned w z = (neg_part z ≤ 2 ^ (w - 1)) × (pos_part z < 2 ^ (w - 1))

-- an integer stored in a signed variable of `w` bits
unfoldable pub wrap : ℕ → ℤ → ℤ
unfolding low_bits signed
wrap w z = signed w (low_bits w z)
