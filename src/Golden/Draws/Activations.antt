-- ===== src/Golden/Draws/Activations.antt =====
-- What `gen_activations` of tb/model/relu_model.py draws.
use zynq_rtl_flow.Base.{
  ℕ, zero, suc, List, [], ◌∷◌, Bool, true, false, ◌≡◌, refl, ap, ◌∙◌, arith, All, length,
}
use zynq_rtl_flow.Base.Int.{ℤ, pos, negsuc, ◌+ℤ◌, ◌≤ℤ◌}
use zynq_rtl_flow.Words.{IsSigned}
use zynq_rtl_flow.Golden.Relu
use zynq_rtl_flow.Golden.Rng.{Rng}
use zynq_rtl_flow.Golden.Draws.{where_mask, set_edges, gen_activations}

-- what a draw between two bounds satisfies
abbrev Within : ℤ → ℤ → ℤ → Type 0
Within lo hi z = (lo ≤ℤ z) × (z +ℤ pos 1 ≤ℤ hi)

Within-IsSigned-low : (z : ℤ) → Within (negsuc 127) (pos 0) z → IsSigned 8 z
unfolding ◌+ℤ◌
Within-IsSigned-low z d = ground arith

Within-IsSigned-high : (z : ℤ) → Within (pos 0) (pos 127 +ℤ pos 1) z → IsSigned 8 z
unfolding ◌+ℤ◌
Within-IsSigned-high z d = ground arith

All-map : {P Q : ℤ → Type 0} → ((z : ℤ) → P z → Q z) → (zs : List ℤ) → All P zs → All Q zs
All-map f [] h = tt
All-map f (z ∷ zs) h = (f z h.0, All-map f zs h.1)

where_mask-All :
    (P : ℤ → Type 0) (mask : List Bool) (xs ys : List ℤ)
    → All P xs
    → All P ys
    → All P (where_mask mask xs ys)
unfolding where_mask
where_mask-All P [] xs ys h k = tt
where_mask-All P (m ∷ mask) [] ys h k = tt
where_mask-All P (m ∷ mask) (x ∷ xs) [] h k = tt
where_mask-All P (true ∷ mask) (x ∷ xs) (y ∷ ys) h k = (h.0, where_mask-All P mask xs ys h.1 k.1)
where_mask-All P (false ∷ mask) (x ∷ xs) (y ∷ ys) h k = (k.0, where_mask-All P mask xs ys h.1 k.1)

length-where_mask :
    (mask : List Bool) (xs ys : List ℤ) (n : ℕ)
    → length mask ≡ n
    → length xs ≡ n
    → length ys ≡ n
    → length (where_mask mask xs ys) ≡ n
unfolding where_mask
length-where_mask [] xs ys n m x y = m
length-where_mask (b ∷ mask) [] ys n m x y = x
length-where_mask (b ∷ mask) (x ∷ xs) [] n m p q = q
length-where_mask (b ∷ mask) (x ∷ xs) (y ∷ ys) zero m p q = absurd (omega (arith, m))
length-where_mask (b ∷ mask) (x ∷ xs) (y ∷ ys) (suc n) m p q =
    ap suc (length-where_mask mask xs ys n (omega (arith, m)) (omega (arith, p)) (omega (arith, q)))

set_edges-All :
    (P : ℤ → Type 0) (edges tile : List ℤ) → All P edges → All P tile → All P (set_edges edges tile)
unfolding set_edges
set_edges-All P [] tile h k = k
set_edges-All P (e ∷ edges) [] h k = tt
set_edges-All P (e ∷ edges) (x ∷ tile) h k = (h.0, set_edges-All P edges tile h.1 k.1)

length-set_edges : (edges tile : List ℤ) → length (set_edges edges tile) ≡ length tile
unfolding set_edges
length-set_edges [] tile = refl
length-set_edges (e ∷ edges) [] = refl
length-set_edges (e ∷ edges) (x ∷ tile) = ap suc (length-set_edges edges tile)

below_zero : negsuc 127 +ℤ pos 1 ≤ℤ pos 0
unfolding ◌+ℤ◌
below_zero = omega arith

below_top : pos 0 +ℤ pos 1 ≤ℤ pos 127 +ℤ pos 1
unfolding ◌+ℤ◌
below_top = omega arith

abbrev the_edges : List ℤ
the_edges = Relu.data_min ∷ Relu.data_max ∷ pos 0 ∷ negsuc 0 ∷ []

edges-IsSigned : All (IsSigned 8) the_edges
edges-IsSigned = omega arith

module _ (rng : Rng) where
  -- A tile of activations has the length that was asked for, and holds signed bytes only, whatever
  -- the share of negative values and the generator's state.
  pub gen_activations-IsSigned :
      (n negative_ratio : ℕ) (s : rng.State)
      → (length (gen_activations rng n negative_ratio s) ≡ n)
        × All (IsSigned 8) (gen_activations rng n negative_ratio s)
  unfolding gen_activations
  gen_activations-IsSigned n negative_ratio s =
      let (negatives, s1) = rng.integers (negsuc 127) (pos 0) n s in
      let (positives, s2) = rng.integers (pos 0) (pos 127 +ℤ pos 1) n s1 in
      let (mask, s3) = rng.below n negative_ratio s2 in
      let tile = where_mask mask negatives positives in
      let low =
        All-map Within-IsSigned-low negatives
          (rng.integers_bounds (negsuc 127) (pos 0) n s below_zero) in
      let high =
        All-map Within-IsSigned-high positives
          (rng.integers_bounds (pos 0) (pos 127 +ℤ pos 1) n s1 below_top) in
      (
        length-set_edges the_edges tile
            ∙ length-where_mask mask negatives positives n (rng.length-below n negative_ratio s2)
                (rng.length-integers (negsuc 127) (pos 0) n s)
                (rng.length-integers (pos 0) (pos 127 +ℤ pos 1) n s1),
        set_edges-All (IsSigned 8) the_edges tile edges-IsSigned
            (where_mask-All (IsSigned 8) mask negatives positives low high),
      )
