-- ===== src/Effects/Laws.antt =====
-- Taking a successful run of a composed action apart.
use zynq_rtl_flow.Base.{Result, ok, err, ◌≡◌, refl, ap}
use zynq_rtl_flow.Effects.{M, ◌>>=◌}

pub bind-eq-ok {ℓ} :
    {S : Type ℓ} {A B : Type 0} (m : M S A) (f : A → M S B) {s t : S} {b : B}
    → (m >>= f) s ≡ (ok b, t)
    → (a : A) × (u : S) × (m s ≡ (ok a, u)) × (f a u ≡ (ok b, t))
bind-eq-ok {S} {A} {B} m f {s} {t} {b} h = split (m s) refl h
  where
    split :
        (r : Result A × S)
        → m s ≡ r
        → (let (q, u) = r in elim q [ ok a ↦ f a u | err e ↦ (err e, u) ]) ≡ (ok b, t)
        → (a : A) × (u : S) × (m s ≡ (ok a, u)) × (f a u ≡ (ok b, t))
    split (ok a, u) e k = (a, u, e, k)
    split (err e, u) _ k = absurd (cc)

-- An action behind one that gave a value.
pub bind-ok {ℓ} :
    {S : Type ℓ} {A B : Type 0} (m : M S A) (f : A → M S B) (s u : S) (a : A)
    → m s ≡ (ok a, u)
    → (m >>= f) s ≡ f a u
bind-ok m f s u a e = ap (λ x. let (r, v) = x in elim r [ ok y ↦ f y v | err k ↦ (err k, v) ]) e
