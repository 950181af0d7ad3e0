-- ===== src/Re/Skip.antt =====
-- What `re.search` of an assignment passes over: text in which none begins.
use mathlib.Core.Path.{subst}
use zynq_rtl_flow.Base.{
  ℕ, [], ◌∷◌, ◌++◌, Option, none, some, Option-cases, Bool, true, false, Bool-cases, ◌==◌, ◌≡◌, inl,
  inr, refl, sym, ap, ◌∙◌, arith, if◌then◌else◌, All,
}
use zynq_rtl_flow.Str.{Text, is_space, strip_prefix, lstrip}
use zynq_rtl_flow.Re.{is_word, is_name_start, assignment, boundary, match_here, search_from}
use zynq_rtl_flow.Re.Assignment.{after_name, after_equals, lstrip-end}
use zynq_rtl_flow.Re.Substitution.{Found, either_match, pushed}

-- no sign of equality is in the text
abbrev pub NoEquals : Text → Type 0
NoEquals = All (λ c. (b'=' == c) ≡ false)

NoEquals-lstrip : (t : Text) → NoEquals t → NoEquals (lstrip t)
unfolding lstrip
NoEquals-lstrip [] plain = plain
NoEquals-lstrip (c ∷ t) (other, plain) = elim (Bool-cases (is_space c)) [
  | inl space ↦
      subst NoEquals (sym (ap (λ b. if b then lstrip t else c ∷ t) space)) (NoEquals-lstrip t plain)
  | inr solid ↦ subst NoEquals (sym (ap (λ b. if b then lstrip t else c ∷ t) solid)) (other, plain)
]

abbrev matched : Bool → Option Text → Option Text
matched same found = elim same [ true ↦ found | false ↦ none ]

-- A name without the character `b` ends in front of it.
strip_prefix-before :
    (b : ℕ) (name p r w : Text)
    → All (λ n. (n == b) ≡ false) name
    → NoEquals p
    → strip_prefix name (p ++ b ∷ r) ≡ some w
    → (q : Text) × (w ≡ q ++ b ∷ r) × NoEquals q
unfolding strip_prefix
strip_prefix-before b [] p r w _ plain h = (p, cc, plain)
strip_prefix-before b (n ∷ name) [] r w (other, _) plain h =
    absurd (cc (sym (ap (λ same. matched same (strip_prefix name r)) other) ∙ h))
strip_prefix-before b (n ∷ name) (c ∷ p) r w (_, others) (_, plain) h = elim (Bool-cases (n == c)) [
  | inl same ↦
      strip_prefix-before b name p r w others plain
        (sym (ap (λ same. matched same (strip_prefix name (p ++ b ∷ r))) same) ∙ h)
  | inr other ↦
      absurd (cc (sym (ap (λ same. matched same (strip_prefix name (p ++ b ∷ r))) other) ∙ h))
]

no_equals :
    (b : ℕ) (z r : Text)
    → (b'=' == b) ≡ false
    → NoEquals z
    → strip_prefix (b'=' ∷ []) (z ++ b ∷ r) ≡ none
unfolding strip_prefix
no_equals b [] r h plain = ap (λ same. matched same (some r)) h
no_equals b (c ∷ z) r h (other, plain) = ap (λ same. matched same (some (z ++ b ∷ r))) other

-- No assignment begins in front of a solid character that the name does not hold, if no sign of
-- equality comes before it.
pub plain-none :
    (b : ℕ) (name p r : Text)
    → is_space b ≡ false
    → (b'=' == b) ≡ false
    → All (λ n. (n == b) ≡ false) name
    → NoEquals p
    → assignment name (p ++ b ∷ r) ≡ none
unfolding assignment
plain-none b name p r solid unequal others plain =
    elim (Option-cases (strip_prefix name (p ++ b ∷ r))) [
      | inl failed ↦ ap after_name failed
      | inr (w, found) ↦
          let (q, same, quiet) = strip_prefix-before b name p r w others plain found in
          ap after_name (found ∙ ap (λ t. some t) same)
          ∙ (ap (λ t. after_equals (strip_prefix (b'=' ∷ []) t)) (lstrip-end q r b solid)
              ∙ ap after_equals (no_equals b (lstrip q) r unequal (NoEquals-lstrip q quiet)))
    ]

-- no assignment begins in `p`, with `t` behind it
abbrev pub Quiet : Text → Text → Text → Type 0
Quiet name [] t = Unit
Quiet name (c ∷ p) t = (assignment name (c ∷ (p ++ t)) ≡ none) × Quiet name p t

pub Quiet-plain :
    (b : ℕ) (name p r : Text)
    → is_space b ≡ false
    → (b'=' == b) ≡ false
    → All (λ n. (n == b) ≡ false) name
    → NoEquals p
    → Quiet name p (b ∷ r)
Quiet-plain b name [] r solid unequal others plain = tt
Quiet-plain b name (c ∷ p) r solid unequal others (other, plain) = (
  plain-none b name (c ∷ p) r solid unequal others (other, plain),
  Quiet-plain b name p r solid unequal others plain,
)

-- whether the character in front of the text behind `p` is a word character
abbrev pub word_behind : Bool → Text → Bool
word_behind word [] = word
word_behind word (c ∷ p) = word_behind (is_word c) p

-- the value that a search finds
abbrev pub value_found : Option Found → Option Text
value_found found = elim found [ none ↦ none | some (_, value, _) ↦ some value ]

value_found-pushed :
    (c : ℕ) (later : Option Found) → value_found (pushed c later) ≡ value_found later
value_found-pushed c none = refl
value_found-pushed c (some (x, value, rest)) = refl

abbrev matched_at : Bool → Option (Text × Text) → Option (Text × Text)
matched_at at found = elim at [ true ↦ found | false ↦ none ]

no_match :
    (name : Text) (word : Bool) (c : ℕ) (t : Text)
    → assignment name (c ∷ t) ≡ none
    → match_here name word (c ∷ t) ≡ none
unfolding match_here
no_match name word c t h = elim (Bool-cases (boundary word c)) [
  | inl at ↦ ap (λ b. matched_at b (assignment name (c ∷ t))) at ∙ h
  | inr off ↦ ap (λ b. matched_at b (assignment name (c ∷ t))) off
]

pub search-skip :
    (name p t : Text) (word : Bool)
    → Quiet name p t
    → value_found (search_from name word (p ++ t))
      ≡ value_found (search_from name (word_behind word p) t)
unfolding search_from
search-skip name [] t word quiet = refl
search-skip name (c ∷ p) t word (first, quiet) =
    ap (λ here. value_found (either_match c here (search_from name (is_word c) (p ++ t))))
      (no_match name word c (p ++ t) first)
    ∙ (value_found-pushed c (search_from name (is_word c) (p ++ t))
        ∙ search-skip name p t (is_word c) quiet)

space-word : (c : ℕ) → is_space c ≡ true → is_word c ≡ false
unfolding is_space is_word is_name_start
space-word c h = ground arith

pub word_behind-spaces : (p : Text) → All (λ c. is_space c ≡ true) p → word_behind false p ≡ false
word_behind-spaces [] spaces = refl
word_behind-spaces (c ∷ p) (space, spaces) =
    ap (λ word. word_behind word p) (space-word c space) ∙ word_behind-spaces p spaces
