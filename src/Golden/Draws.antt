-- ===== src/Golden/Draws.antt =====
-- `gen_pairs` of tb/model/sparse_mac_model.py and `gen_activations` of tb/model/relu_model.py.
pub mod Range
pub mod Activations
use zynq_rtl_flow.Base.{ℕ, suc, List, [], ◌∷◌, Bool, true, false, ltb, if◌then◌else◌}
use zynq_rtl_flow.Base.Int.{ℤ, pos, negsuc, ◌+ℤ◌}
use zynq_rtl_flow.Golden.Rng.{Rng}
use zynq_rtl_flow.Golden.SparseMac
use zynq_rtl_flow.Golden.Relu

-- `array[mask] = 0`
unfoldable pub zero_where : List Bool → List ℤ → List ℤ
zero_where (m ∷ mask) (x ∷ xs) = (if m then pos 0 else x) ∷ zero_where mask xs
zero_where _ xs = xs

-- `np.where(mask, xs, ys)`
unfoldable pub where_mask : List Bool → List ℤ → List ℤ → List ℤ
where_mask (m ∷ mask) (x ∷ xs) (y ∷ ys) = (if m then x else y) ∷ where_mask mask xs ys
where_mask _ _ _ = []

-- `tile[i] = edge` for the edges in order, as far as the tile reaches
unfoldable pub set_edges : List ℤ → List ℤ → List ℤ
set_edges (e ∷ edges) (x ∷ tile) = e ∷ set_edges edges tile
set_edges _ tile = tile

-- `if sparsity > 0`: the zeros, if any
unfoldable pub sparsify : Bool → List Bool → List Bool → List ℤ → List ℤ → List ℤ × List ℤ
unfolding zero_where
sparsify true mask_w mask_a w a = (zero_where mask_w w, zero_where mask_a a)
sparsify false mask_w mask_a w a = (w, a)

module _ (rng : Rng) where
  open rng use {State, default_rng, integers, below}

  unfoldable pub gen_pairs : ℕ → ℕ → ℕ → List ℤ × List ℤ
  unfolding sparsify
  gen_pairs n sparsity seed =
      let (w, s1) =
        integers SparseMac.data_min (SparseMac.data_max +ℤ pos 1) n (default_rng seed) in
      let (a, s2) = integers SparseMac.data_min (SparseMac.data_max +ℤ pos 1) n s1 in
      let (mask_w, s3) = below n sparsity s2 in
      let (mask_a, s4) = below n sparsity s3 in sparsify (ltb 0 sparsity) mask_w mask_a w a

  unfoldable pub gen_activations : ℕ → ℕ → State → List ℤ
  unfolding where_mask set_edges
  gen_activations n negative_ratio s =
      let (negatives, s1) = integers Relu.data_min (pos 0) n s in
      let (positives, s2) = integers (pos 0) (Relu.data_max +ℤ pos 1) n s1 in
      let (pick_negative, s3) = below n negative_ratio s2 in
      set_edges (Relu.data_min ∷ Relu.data_max ∷ pos 0 ∷ negsuc 0 ∷ [])
        (where_mask pick_negative negatives positives)

  -- the generator behind those draws
  unfoldable pub behind_activations : ℕ → ℕ → State → State
  behind_activations n negative_ratio s =
      let (_, s1) = integers Relu.data_min (pos 0) n s in
      let (_, s2) = integers (pos 0) (Relu.data_max +ℤ pos 1) n s1 in
      let (_, s3) = below n negative_ratio s2 in s3
