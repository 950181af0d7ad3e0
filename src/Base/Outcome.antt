-- ===== src/Base/Outcome.antt =====
-- What a Python statement can end in: a value, `sys.exit(message)` or an uncaught exception; and
-- `no_end`, for a coroutine that still waits when the rounds that a run gives it are used up.
use Prim.Native.Nat.{ℕ}
use mathlib.Core.Path.{◌≡◌, refl}
use mathlib.Core.List.{List}

pub data Failure : Type 0 where
  exit : List ℕ → Failure
  value_error index_error key_error type_error struct_error assertion_error os_error overflow_error
        process_error re_error no_end :
      Failure

pub data Result {ℓ} (A : Type ℓ) : Type ℓ where
  ok : A → Result A
  err : Failure → Result A

module _ {ℓ κ} {A : Type ℓ} {B : Type κ} where
  infixl 5 ◌>>=◌
  abbrev pub ◌>>=◌ : Result A → (A → Result B) → Result B
  err failure >>= next = err failure
  ok value >>= next = next value

  -- what a statement and the next one did, if together they end in a value
  pub bind-eq-ok :
      (first : Result A) (next : A → Result B) {end : B}
      → (first >>= next) ≡ ok end
      → (value : A) × (first ≡ ok value) × (next value ≡ ok end)
  bind-eq-ok (err failure) next h = cc
  bind-eq-ok (ok value) next h = (value, refl, h)

pub ok-injective {ℓ} : {A : Type ℓ} {m n : A} → ok m ≡ ok n → m ≡ n
ok-injective h = cc
