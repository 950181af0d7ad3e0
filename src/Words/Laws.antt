-- ===== src/Words/Laws.antt =====
-- The laws of two's complement words that the models need.
use native.Mathlib.Nat.{pow-suc, mod-lt, mod-eq_of_lt, div-eq_of_lt}
use zynq_rtl_flow.Base.{
  ℕ, zero, suc, ◌+◌, ◌-◌, ◌*◌, ◌/◌, ◌%◌, ◌^◌, ◌≤◌, ◌<◌, ◌==◌, ◌≡◌, ap, arith, if◌then◌else◌,
}
use zynq_rtl_flow.Base.Int.{ℤ, pos, negsuc, sub_ℕ, ◌+ℤ◌}
use zynq_rtl_flow.Words.{low_bits, signed, IsSigned}

abbrev sign_bit : ℕ → ℕ → ℕ → ℤ
sign_bit h m r = if r / h % 2 == 1 then sub_ℕ r m else pos r

pow_half : (k : ℕ) → 2 ^ suc k ≡ 2 * 2 ^ (suc k - 1)
pow_half k = omega (arith, pow-suc 2 k, ap (λ j. 2 ^ j) (pred_suc k))
  where
    pred_suc : (k : ℕ) → suc k - 1 ≡ k
    pred_suc k = omega arith

half_ge : (h r : ℕ) → h ≤ r → r < 2 * h → r / h ≡ 1
half_ge h r p q = grind arith

-- Both signs, over a half range `h` and a full range `m` with no power in sight.
halves_pos : (h m n : ℕ) → m ≡ 2 * h → n < h → sign_bit h m (n % m) ≡ pos n
halves_pos h m n e p = rw (mod-eq_of_lt {n = n} {m = m} (omega arith), div-eq_of_lt p)

halves_negsuc : (h m n : ℕ) → m ≡ 2 * h → n < h → sign_bit h m (m - 1 - n % m) ≡ negsuc n
halves_negsuc h m n e p =
    rw
      (
        mod-eq_of_lt {n = n} {m = m} (omega arith),
        half_ge h (m - 1 - n) (omega arith) (omega arith),
      )
      (ground arith)

-- Reading the low bits of an integer as a signed word gives the integer, at every width, if it fits.
pub signed-low_bits : (k : ℕ) (z : ℤ) → IsSigned (suc k) z → signed (suc k) (low_bits (suc k) z) ≡ z
unfolding low_bits signed
signed-low_bits k (pos n) h = halves_pos (2 ^ (suc k - 1)) (2 ^ suc k) n (pow_half k) h.1
signed-low_bits k (negsuc n) h = halves_negsuc (2 ^ (suc k - 1)) (2 ^ suc k) n (pow_half k) h.0

pub low_bits-signed8 : (r : ℕ) → r < 256 → low_bits 8 (signed 8 r) ≡ r
unfolding low_bits signed
low_bits-signed8 r h = ground arith

pub low_bits-signed32 : (r : ℕ) → r < 2 ^ 32 → low_bits 32 (signed 32 r) ≡ r
unfolding low_bits signed
low_bits-signed32 r h = ground arith

pub signed-low_bits8 : (z : ℤ) → IsSigned 8 z → signed 8 (low_bits 8 z) ≡ z
unfolding low_bits signed
signed-low_bits8 z h = ground arith

pub signed-low_bits32 : (z : ℤ) → IsSigned 32 z → signed 32 (low_bits 32 z) ≡ z
unfolding low_bits signed
signed-low_bits32 z h = ground arith

pub low_bits32-add : (a b : ℤ) → low_bits 32 (a +ℤ b) ≡ (low_bits 32 a + low_bits 32 b) % 2 ^ 32
unfolding low_bits ◌+ℤ◌
low_bits32-add a b = ground arith

pow_pos : (w : ℕ) → 0 < 2 ^ w
pow_pos zero = omega arith
pow_pos (suc w) = omega (arith, pow-suc 2 w, pow_pos w)

pub low_bits_lt : (w : ℕ) (z : ℤ) → low_bits w z < 2 ^ w
unfolding low_bits
low_bits_lt w (pos n) = mod-lt n (pow_pos w)
low_bits_lt w (negsuc n) = omega (arith, mod-lt n (pow_pos w))

-- Masking a masked value changes nothing.
pub low_bits_idem : (w : ℕ) (z : ℤ) → low_bits w (pos (low_bits w z)) ≡ low_bits w z
low_bits_idem w z = unfold low_bits in mod-eq_of_lt (low_bits_lt w z)
