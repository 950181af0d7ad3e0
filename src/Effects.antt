-- ===== src/Effects.antt =====
-- Scripts that act on a state: an action ends in a value or a failure, and what it did to the state
-- until then stays done.
pub mod Laws
use zynq_rtl_flow.Base.{Result, ok, err, Failure}

abbrev pub M {ℓ} : Type ℓ → Type 0 → Type ℓ
M S A = S → Result A × S

module _ {ℓ} {S : Type ℓ} {A B : Type 0} where
  infixl 5 ◌>>=◌
  abbrev pub ◌>>=◌ : M S A → (A → M S B) → M S B
  ◌>>=◌ m f s = let (r, s') = m s in elim r [ ok a ↦ f a s' | err e ↦ (err e, s') ]

module _ {ℓ} {S : Type ℓ} {A : Type 0} where
  abbrev pub return : A → M S A
  return a s = (ok a, s)

  -- a result that does not touch the state
  abbrev pub lift : Result A → M S A
  lift r s = (r, s)

  abbrev pub raise : Failure → M S A
  raise e s = (err e, s)

  -- `try: body finally: last`
  abbrev pub finally : M S A → (S → S) → M S A
  finally body last s = let (r, s') = body s in (r, last s')

  -- a value read from the state
  abbrev pub gets : (S → A) → M S A
  gets f s = (ok (f s), s)

module _ {ℓ} {S : Type ℓ} where
  abbrev pub modify : (S → S) → M S (Unit {0})
  modify f s = (ok tt, f s)
