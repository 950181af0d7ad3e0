-- ===== src/Rtl/ReluUnit/Golden.antt =====
-- The activation unit computes the golden model's value on every activation and slope.
use mathlib.Core.Path.{ap₂}
use native.Mathlib.Nat.{mul-le-mul, mul_comm}
use zynq_rtl_flow.Base.{
  ℕ, suc, ◌*◌, ◌≤◌, ◌<◌, ◌≡◌, refl, ap, ◌∙◌, arith, Bool-cases, true, false, inl, inr, List, [],
  ◌∷◌, map, All,
}
use zynq_rtl_flow.Base.Int.{ℤ, pos, negsuc, pos_part, neg_part, ◌*ℤ◌, shift_right}
use zynq_rtl_flow.Words.{low_bits, signed, wrap, IsSigned}
use zynq_rtl_flow.Words.Laws
use zynq_rtl_flow.Golden.Relu.{nonneg, leaky, golden}
use zynq_rtl_flow.Rtl.ReluUnit.{relu_unit}

wrap_fits : (k : ℕ) (z : ℤ) → IsSigned (suc k) z → wrap (suc k) z ≡ z
wrap_fits k z h = unfold wrap in Laws.signed-low_bits k z h

le_product : (n s : ℕ) → n ≤ 128 → s ≤ 255 → n * s ≤ 128 * 255
le_product n s p q = mul-le-mul p q

-- A signed byte times a slope lies far inside 17 bits.
product_fits :
    (x : ℤ) (slope : ℕ)
    → IsSigned 8 x
    → slope < 256
    → (neg_part (x *ℤ pos slope) ≤ 32640) × (pos_part (x *ℤ pos slope) ≤ 32640)
unfolding ◌*ℤ◌
product_fits (pos n) slope h s = ground (arith, le_product n slope)
product_fits (negsuc n) slope h s = ground (arith, le_product (suc n) slope)

*ℤ_comm : (a b : ℤ) → a *ℤ b ≡ b *ℤ a
unfolding ◌*ℤ◌
*ℤ_comm a b = ground (
  arith,
  mul_comm (pos_part a) (pos_part b),
  mul_comm (neg_part a) (neg_part b),
  mul_comm (pos_part a) (neg_part b),
  mul_comm (neg_part a) (pos_part b),
)

shift_fits : (z : ℤ) → neg_part z ≤ 32640 → pos_part z ≤ 32640 → IsSigned 8 (shift_right z 8)
unfolding shift_right
shift_fits z lo hi = ground arith

product_wraps :
    (x : ℤ) (slope : ℕ) → IsSigned 8 x → slope < 256 → wrap 17 (pos slope *ℤ x) ≡ x *ℤ pos slope
product_wraps x slope h s =
    let (lo, hi) = product_fits x slope h s in
    rw (*ℤ_comm (pos slope) x) (wrap_fits 16 _ (omega arith))

-- The int64 product of the golden model does not wrap.
leaky-negative :
    (x : ℤ) (slope : ℕ)
    → IsSigned 8 x
    → slope < 256
    → nonneg x ≡ false
    → leaky slope x ≡ shift_right (x *ℤ pos slope) 8
unfolding leaky
leaky-negative x slope h s neg =
    let (lo, hi) = product_fits x slope h s in
    rw neg (ap (λ z. shift_right z 8) (wrap_fits 63 (x *ℤ pos slope) (omega arith)))

leaky-nonneg : (x : ℤ) (slope : ℕ) → nonneg x ≡ true → leaky slope x ≡ x
unfolding leaky
leaky-nonneg x slope p = rw p

-- The golden value of a signed byte is a signed byte.
pub leaky_fits : (x : ℤ) (slope : ℕ) → IsSigned 8 x → slope < 256 → IsSigned 8 (leaky slope x)
leaky_fits x slope h s = elim (Bool-cases (nonneg x)) [
  | inl p ↦ rw (leaky-nonneg x slope p) h
  | inr n ↦
      let (lo, hi) = product_fits x slope h s in
      rw (leaky-negative x slope h s n) (shift_fits (x *ℤ pos slope) lo hi)
]

-- The activation unit, at the bits of a signed byte and at any slope, gives the bits of the golden
-- model's value.
pub relu_unit-leaky :
    (x : ℤ) (slope : ℕ)
    → IsSigned 8 x
    → slope < 256
    → relu_unit (low_bits 8 x) slope ≡ low_bits 8 (leaky slope x)
unfolding relu_unit
relu_unit-leaky x slope h s = elim (Bool-cases (nonneg x)) [
  | inl p ↦ rw (Laws.signed-low_bits8 x h, p, leaky-nonneg x slope p)
  | inr n ↦
      rw (Laws.signed-low_bits8 x h, n, leaky-negative x slope h s n, product_wraps x slope h s)
]

-- Read as signed bytes, the unit's outputs over a tile are the golden tile.
pub map-relu_unit :
    (tile : List ℤ) (slope : ℕ)
    → All (IsSigned 8) tile
    → slope < 256
    → map (λ x. signed 8 (relu_unit (low_bits 8 x) slope)) tile ≡ golden tile slope
unfolding golden
map-relu_unit [] slope h s = refl
map-relu_unit (x ∷ tile) slope h s =
    ap₂ ◌∷◌
      (ap (signed 8) (relu_unit-leaky x slope h.0 s)
        ∙ Laws.signed-low_bits8 (leaky slope x) (leaky_fits x slope h.0 s))
      (map-relu_unit tile slope h.1 s)
