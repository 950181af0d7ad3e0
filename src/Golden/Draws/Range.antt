-- ===== src/Golden/Draws/Range.antt =====
-- What the generators of tb/model draw: tiles of the asked length, of signed bytes.
use zynq_rtl_flow.Base.{
  ℕ, List, [], ◌∷◌, Bool, true, false, ◌≡◌, refl, sym, ◌∙◌, arith, All, length, ltb,
}
use zynq_rtl_flow.Base.Int.{ℤ, pos, negsuc, ◌+ℤ◌, ◌≤ℤ◌}
use zynq_rtl_flow.Words.{IsSigned}
use zynq_rtl_flow.Golden.SparseMac
use zynq_rtl_flow.Golden.Rng.{Rng}
use zynq_rtl_flow.Golden.Draws.{gen_pairs, zero_where, sparsify}

-- two operands that a signed byte can hold
abbrev pub IsPair : ℤ × ℤ → Type 0
IsPair p = IsSigned 8 p.0 × IsSigned 8 p.1

abbrev Draw : ℤ → ℤ → ℤ → Type 0
Draw lo hi z = (lo ≤ℤ z) × (z +ℤ pos 1 ≤ℤ hi)

Draw-IsSigned : (z : ℤ) → Draw (negsuc 127) (pos 127 +ℤ pos 1) z → IsSigned 8 z
unfolding ◌+ℤ◌
Draw-IsSigned z d = ground arith

All-Draw : (zs : List ℤ) → All (Draw (negsuc 127) (pos 127 +ℤ pos 1)) zs → All (IsSigned 8) zs
All-Draw [] _ = tt
All-Draw (z ∷ zs) ds = (Draw-IsSigned z ds.0, All-Draw zs ds.1)

zero_where-IsSigned :
    (mask : List Bool) (xs : List ℤ) → All (IsSigned 8) xs → All (IsSigned 8) (zero_where mask xs)
unfolding zero_where
zero_where-IsSigned [] [] h = tt
zero_where-IsSigned [] (x ∷ xs) h = h
zero_where-IsSigned (m ∷ mask) [] h = tt
zero_where-IsSigned (true ∷ mask) (x ∷ xs) h = (omega arith, zero_where-IsSigned mask xs h.1)
zero_where-IsSigned (false ∷ mask) (x ∷ xs) h = (h.0, zero_where-IsSigned mask xs h.1)

length-zero_where : (mask : List Bool) (xs : List ℤ) → length (zero_where mask xs) ≡ length xs
unfolding zero_where
length-zero_where [] [] = refl
length-zero_where [] (x ∷ xs) = refl
length-zero_where (m ∷ mask) [] = refl
length-zero_where (m ∷ mask) (x ∷ xs) = omega (arith, length-zero_where mask xs)

zip-IsPair :
    (ws acts : List ℤ)
    → All (IsSigned 8) ws
    → All (IsSigned 8) acts
    → All IsPair (SparseMac.zip ws acts)
unfolding SparseMac.zip
zip-IsPair [] acts hw ha = tt
zip-IsPair (w ∷ ws) [] hw ha = tt
zip-IsPair (w ∷ ws) (a ∷ acts) hw ha = ((hw.0, ha.0), zip-IsPair ws acts hw.1 ha.1)

length-zip :
    (ws acts : List ℤ) → length ws ≡ length acts → length (SparseMac.zip ws acts) ≡ length ws
unfolding SparseMac.zip
length-zip [] acts h = refl
length-zip (w ∷ ws) [] h = absurd (omega arith)
length-zip (w ∷ ws) (a ∷ acts) h = omega (arith, length-zip ws acts (omega arith))

low_lt_high : negsuc 127 +ℤ pos 1 ≤ℤ pos 127 +ℤ pos 1
unfolding ◌+ℤ◌
low_lt_high = omega arith

-- Two lists of `n` signed bytes.
abbrev pub Fits : ℕ → List ℤ × List ℤ → Type 0
Fits n p = All (IsSigned 8) p.0 × All (IsSigned 8) p.1 × (length p.0 ≡ n) × (length p.1 ≡ n)

sparsify-Fits :
    (b : Bool) (mask_w mask_a : List Bool) (w a : List ℤ) (n : ℕ)
    → Fits n (w, a)
    → Fits n (sparsify b mask_w mask_a w a)
unfolding sparsify
sparsify-Fits false mask_w mask_a w a n h = h
sparsify-Fits true mask_w mask_a w a n (hw, ha, lw, la) = (
  zero_where-IsSigned mask_w w hw,
  zero_where-IsSigned mask_a a ha,
  length-zero_where mask_w w ∙ lw,
  length-zero_where mask_a a ∙ la,
)

pub zip-Fits :
    (n : ℕ) (p : List ℤ × List ℤ)
    → Fits n p
    → All IsPair (SparseMac.zip p.0 p.1) × (length (SparseMac.zip p.0 p.1) ≡ n)
zip-Fits n p (hw, ha, lw, la) = (zip-IsPair p.0 p.1 hw ha, length-zip p.0 p.1 (lw ∙ sym la) ∙ lw)

module _ (rng : Rng) where
  integers-IsSigned :
      (n : ℕ) (s : rng.State)
      → All (IsSigned 8) (rng.integers SparseMac.data_min (SparseMac.data_max +ℤ pos 1) n s).0
  integers-IsSigned n s =
      All-Draw _ (rng.integers_bounds (negsuc 127) (pos 127 +ℤ pos 1) n s low_lt_high)

  gen_pairs-Fits : (n sparsity seed : ℕ) → Fits n (gen_pairs rng n sparsity seed)
  unfolding gen_pairs
  gen_pairs-Fits n sparsity seed = sparsify-Fits (ltb 0 sparsity) _ _ _ _ n (
    integers-IsSigned n _,
    integers-IsSigned n _,
    rng.length-integers _ _ n _,
    rng.length-integers _ _ n _,
  )

  -- `gen_pairs` draws as many pairs as it is asked for, each of two signed bytes, whatever the
  -- sparsity and the seed.
  pub gen_pairs_fits :
      (n sparsity seed : ℕ)
      → let (w, a) = gen_pairs rng n sparsity seed in
        All IsPair (SparseMac.zip w a) × (length (SparseMac.zip w a) ≡ n)
  gen_pairs_fits n sparsity seed =
      zip-Fits n (gen_pairs rng n sparsity seed) (gen_pairs-Fits n sparsity seed)
