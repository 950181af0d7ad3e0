-- ===== src/Golden/Rng.antt =====
-- What the generators of tb/model ask of numpy's random generator, with the documented shape and
-- range of its draws. A fraction is given in hundredths.
use zynq_rtl_flow.Base.{ℕ, List, Bool, ◌≡◌, All, length}
use zynq_rtl_flow.Base.Int.{ℤ, ◌≤ℤ◌, ◌+ℤ◌, pos}

pub record Rng : Type 1 where
  pub State : Type 0
  pub default_rng : ℕ → State
  -- `rng.integers(low, high, size=n)`
  pub integers : ℤ → ℤ → ℕ → State → List ℤ × State
  -- `rng.random(n) < fraction`
  pub below : ℕ → ℕ → State → List Bool × State
  pub length-integers : (lo hi : ℤ) (n : ℕ) (s : State) → length (integers lo hi n s).0 ≡ n
  pub integers_bounds :
      (lo hi : ℤ) (n : ℕ) (s : State)
      → lo +ℤ pos 1 ≤ℤ hi
      → All (λ z. (lo ≤ℤ z) × (z +ℤ pos 1 ≤ℤ hi)) (integers lo hi n s).0
  pub length-below : (n fraction : ℕ) (s : State) → length (below n fraction s).0 ≡ n
