-- ===== src/Overlay/Link/Property.antt =====
-- The two properties that `link_dma_client` of flows/embedded/overlay.py writes, for the search of
-- `property_value`.
use zynq_rtl_flow.Base.{
  ℕ, [], ◌∷◌, ◌++◌, none, some, Bool, true, false, ◌==◌, ◌≡◌, refl, sym, ap, ◌∙◌, Bool-cases, inl,
  inr, ==_iff, if◌then◌else◌, All,
}
use zynq_rtl_flow.Str.{Text, codes, is_space, strip_prefix, lstrip}
use zynq_rtl_flow.Re.{is_word, is_name_start, cut, assignment, match_here, search_from}
use zynq_rtl_flow.Re.Assignment.{after_name, strip_prefix_self}
use zynq_rtl_flow.Re.Substitution.{either_match}
use zynq_rtl_flow.Re.Skip.{NoEquals, Quiet, search-skip, value_found, word_behind-spaces}
use zynq_rtl_flow.Overlay.Interrupts.ReadBack.{NoEnd, cut-whole}

-- a character of a value: neither the end of a property nor a sign of equality
abbrev pub IsClean : ℕ → Type 0
IsClean c = ((c == b';') ≡ false) × ((b'=' == c) ≡ false)

pub Clean-NoEnd : (v : Text) → All IsClean v → NoEnd v
Clean-NoEnd [] clean = tt
Clean-NoEnd (c ∷ v) (first, clean) = (first.0, Clean-NoEnd v clean)

pub Clean-NoEquals : (v : Text) → All IsClean v → NoEquals v
Clean-NoEquals [] clean = tt
Clean-NoEquals (c ∷ v) (first, clean) = (first.1, Clean-NoEquals v clean)

-- a text whose first character is no space
abbrev pub Starts : Text → Type 0
Starts [] = ⊥
Starts (c ∷ t) = is_space c ≡ false

pub Starts-append : (x t : Text) → Starts x → Starts (x ++ t)
Starts-append [] t starts = absurd starts
Starts-append (c ∷ x) t starts = starts

lstrip-Starts : (t : Text) → Starts t → lstrip t ≡ t
unfolding lstrip
lstrip-Starts [] starts = absurd starts
lstrip-Starts (c ∷ t) starts = ap (λ b. if b then lstrip t else c ∷ t) starts

-- a property whose name is at hand
value_here :
    (n : ℕ) (name v w : Text)
    → is_word n ≡ true
    → Starts v
    → NoEnd v
    → value_found (search_from (n ∷ name) false ((n ∷ name) ++ (codes " = " ++ (v ++ b';' ∷ w))))
      ≡ some v
unfolding search_from match_here assignment strip_prefix lstrip is_space
value_here n name v w word starts clean =
    let text = name ++ (codes " = " ++ (v ++ b';' ∷ w)) in
    let later = search_from (n ∷ name) (is_word n) text in
    ap
      (λ b.
        value_found (
          either_match n (elim b [ true ↦ assignment (n ∷ name) (n ∷ text) | false ↦ none ]) later))
      word
    ∙ ap (λ found. value_found (either_match n found later))
        (ap after_name (strip_prefix_self (n ∷ name) (codes " = " ++ (v ++ b';' ∷ w)))
          ∙ (ap (cut b';') (lstrip-Starts (v ++ b';' ∷ w) (Starts-append v (b';' ∷ w) starts))
              ∙ cut-whole v w clean))

other_first :
    (n c : ℕ) (name t : Text)
    → is_space n ≡ false
    → is_space c ≡ true
    → assignment (n ∷ name) (c ∷ t) ≡ none
unfolding assignment strip_prefix
other_first n c name t solid space = elim (Bool-cases (n == c)) [
  | inl same ↦ absurd (contradiction (sym solid ∙ (ap is_space ((==_iff n c).0 same) ∙ space)))
  | inr other ↦ ap (λ b. after_name (elim b [ true ↦ strip_prefix name t | false ↦ none ])) other
]
  where
    contradiction : false ≡ true → ⊥
    contradiction e = cc

-- No name begins with a space.
pub Quiet-spaces :
    (n : ℕ) (name p t : Text)
    → is_space n ≡ false
    → All (λ c. is_space c ≡ true) p
    → Quiet (n ∷ name) p t
Quiet-spaces n name [] t solid spaces = tt
Quiet-spaces n name (c ∷ p) t solid (space, spaces) =
    (other_first n c name (p ++ t) solid space, Quiet-spaces n name p t solid spaces)

-- a property behind a line break and an indentation
pub value_indented :
    (n : ℕ) (name indent v w : Text) (word : Bool)
    → is_space n ≡ false
    → is_word n ≡ true
    → All (λ c. is_space c ≡ true) indent
    → Starts v
    → NoEnd v
    → value_found (
        search_from
          (n ∷ name)
          word
          (b'\n' ∷ (indent ++ ((n ∷ name) ++ (codes " = " ++ (v ++ b';' ∷ w))))))
      ≡ some v
unfolding is_space is_word is_name_start
value_indented n name indent v w word solid is spaces starts clean =
    let found = (n ∷ name) ++ (codes " = " ++ (v ++ b';' ∷ w)) in
    search-skip (n ∷ name) (b'\n' ∷ []) (indent ++ found) word
      (Quiet-spaces n name (b'\n' ∷ []) (indent ++ found) solid (refl, tt))
    ∙ (search-skip (n ∷ name) indent found false (Quiet-spaces n name indent found solid spaces)
        ∙ (ap (λ before. value_found (search_from (n ∷ name) before found))
              (word_behind-spaces indent spaces)
            ∙ value_here n name v w is starts clean))
