-- ===== src/Golden/SparseMac.antt =====
-- tb/model/sparse_mac_model.py: what the sparse accelerator computes.
pub mod Laws
use zynq_rtl_flow.Base.{ℕ, ◌+◌, ◌-◌, ◌^◌, List, [], ◌∷◌, Bool, ◌||◌, if◌then◌else◌}
use zynq_rtl_flow.Base.Int.{ℤ, pos, negsuc, sub_ℕ, ◌+ℤ◌, ◌*ℤ◌, ◌==ℤ◌}
use zynq_rtl_flow.Words.{low_bits, test_bit}

abbrev pub data_w : ℕ
data_w = 8

abbrev pub acc_w : ℕ
acc_w = 32

abbrev pub skip_w : ℕ
skip_w = 16

-- -(1 << (DATA_W - 1))
abbrev pub data_min : ℤ
data_min = negsuc (2 ^ (data_w - 1) - 1)

abbrev pub data_max : ℤ
data_max = pos (2 ^ (data_w - 1) - 1)

abbrev pub data_mask : ℕ
data_mask = 2 ^ data_w - 1

-- Python's `zip` of two lists
unfoldable pub zip {ℓ} : {A : Type ℓ} → List A → List A → List (A × A)
zip (x ∷ xs) (y ∷ ys) = (x, y) ∷ zip xs ys
zip _ _ = []

abbrev pub skipped : ℤ → ℤ → Bool
skipped w a = w ==ℤ pos 0 || a ==ℤ pos 0

-- the loop, with `acc` and `skip` so far
unfoldable pub golden_from : ℤ → ℕ → List (ℤ × ℤ) → ℤ × ℕ
golden_from acc skip [] = (acc, skip)
golden_from acc skip ((w, a) ∷ pairs) =
    golden_from (if skipped w a then acc else acc +ℤ w *ℤ a)
      (if skipped w a then skip + 1 else skip) pairs

unfoldable pub golden : List ℤ → List ℤ → ℤ × ℕ
unfolding golden_from zip
golden weights acts = golden_from (pos 0) 0 (zip weights acts)

unfoldable pub to_signed : ℤ → ℕ → ℤ
to_signed value width =
    let raw = low_bits width value in
    if test_bit raw (width - 1) then sub_ℕ raw (2 ^ width) else pos raw
