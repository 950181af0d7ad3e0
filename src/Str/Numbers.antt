-- ===== src/Str/Numbers.antt =====
-- A number printed with `%d` reads back as itself.
use zynq_rtl_flow.Base.{
  ℕ, zero, suc, ◌+◌, ◌-◌, ◌*◌, ◌/◌, ◌%◌, ◌≤◌, ◌==◌, [], ◌∷◌, ◌++◌, ◌≡◌, false, refl, sym, ap, ◌∙◌,
  arith, ==_iff, Bool-cases, inl, inr,
}
use zynq_rtl_flow.Str.{Text, digits, decimal, number}

last_digit : (n : ℕ) → (n / 10) * 10 + ((b'0' + n % 10) - b'0') ≡ n
last_digit n = omega arith

digits-small :
    (fuel n : ℕ) (out : Text) → n / 10 ≡ 0 → digits (suc fuel) n out ≡ (b'0' + n % 10) ∷ out
unfolding digits
digits-small fuel n out h = ground (arith, h)

digits-more :
    (fuel n : ℕ) (out : Text)
    → (n / 10 == 0) ≡ false
    → digits (suc fuel) n out ≡ digits fuel (n / 10) ((b'0' + n % 10) ∷ out)
unfolding digits
digits-more fuel n out h = rw h refl

number-last : (n : ℕ) (out : Text) → number (n / 10) ((b'0' + n % 10) ∷ out) ≡ number n out
unfolding number
number-last n out = ap (λ x. number x out) (last_digit n)

number-first : (n : ℕ) (out : Text) → n / 10 ≡ 0 → number 0 ((b'0' + n % 10) ∷ out) ≡ number n out
number-first n out h = ap (λ x. number x ((b'0' + n % 10) ∷ out)) (sym h) ∙ number-last n out

-- The fuel is enough: it is at least the number.
number-digits :
    (fuel n : ℕ) (out : Text) → n ≤ fuel → number 0 (digits (suc fuel) n out) ≡ number n out
number-digits zero n out h =
    ap (number 0) (digits-small zero n out (omega arith)) ∙ number-first n out (omega arith)
number-digits (suc fuel) n out h = elim (Bool-cases (n / 10 == 0)) [
  | inl e ↦
      let small = (==_iff (n / 10) 0).0 e in
      ap (number 0) (digits-small (suc fuel) n out small) ∙ number-first n out small
  | inr e ↦
      ap (number 0) (digits-more (suc fuel) n out e)
      ∙ (number-digits fuel (n / 10) ((b'0' + n % 10) ∷ out) (omega arith) ∙ number-last n out)
]

number-append : (n : ℕ) (xs ys : Text) → number n (xs ++ ys) ≡ number (number n xs) ys
unfolding number
number-append n [] ys = refl
number-append n (x ∷ xs) ys = number-append (n * 10 + (x - b'0')) xs ys

pub number-decimal : (n : ℕ) (rest : Text) → number 0 (decimal n ++ rest) ≡ number n rest
unfolding decimal number
number-decimal n rest =
    number-append 0 (digits (suc n) n []) rest
    ∙ ap (λ x. number x rest) (number-digits n n [] (omega arith))
