-- ===== src/Re/Substitution.antt =====
-- `re.search` of an assignment behind a `re.sub` of it: the match is at the same place, with the new
-- value.
use mathlib.Core.Path.{subst}
use zynq_rtl_flow.Base.{
  ℕ, [], ◌∷◌, ◌++◌, append_assoc, length, Option, none, some, Option-cases, Bool, true, false,
  Bool-cases, ◌==◌, ==_iff, ◌≡◌, ◌⊎◌, inl, inr, sym, ap, ◌∙◌, arith, length-append,
}
use zynq_rtl_flow.Str.{Text, strip_prefix, lstrip}
use zynq_rtl_flow.Re.{is_word, assignment, boundary, match_here, search_from}
use zynq_rtl_flow.Re.Assignment.{
  HasEnd, HasEnd-cons, HasEnd-lstrip, EndsName, after_equals, after_name, name-moves,
}

same_code : (p c : ℕ) → (p == c) ≡ true → p ≡ c
same_code p c h = (==_iff p c).0 h

strip_prefix_sound : (p t w : Text) → strip_prefix p t ≡ some w → t ≡ p ++ w
unfolding strip_prefix
strip_prefix_sound [] t w h = cc
strip_prefix_sound (p ∷ ps) [] w h = absurd (cc)
strip_prefix_sound (p ∷ ps) (c ∷ cs) w h = elim (Bool-cases (p == c)) [
  | inl same ↦
      ap (λ x. x ∷ cs) (sym (same_code p c same))
      ∙ ap (λ x. p ∷ x)
          (strip_prefix_sound ps cs w
            (sym (ap (λ b. elim b [ true ↦ strip_prefix ps cs | false ↦ none ]) same) ∙ h))
  | inr other ↦
      absurd (cc (sym (ap (λ b. elim b [ true ↦ strip_prefix ps cs | false ↦ none ]) other) ∙ h))
]

-- the text behind the name of an assignment holds its semicolon
equals-HasEnd :
    (w : Text) (found : Text × Text)
    → after_equals (strip_prefix (b'=' ∷ []) (lstrip w)) ≡ some found
    → HasEnd w
equals-HasEnd w found h =
    let eq : Text = b'=' ∷ [] in
    elim (Option-cases (strip_prefix eq (lstrip w))) [
      | inl failed ↦ absurd (cc (sym (ap after_equals failed) ∙ h))
      | inr (value, is) ↦ HasEnd-lstrip w (
          subst HasEnd (sym (strip_prefix_sound eq (lstrip w) value is))
            (HasEnd-cons b'=' value (HasEnd-lstrip value (found, sym (ap after_equals is) ∙ h))))
    ]

-- An assignment begins with its name, and holds a semicolon behind it.
assignment-shape :
    (name t : Text) (found : Text × Text)
    → assignment name t ≡ some found
    → (w : Text) × (t ≡ name ++ w) × HasEnd w
unfolding assignment
assignment-shape name t found h = elim (Option-cases (strip_prefix name t)) [
  | inl failed ↦ absurd (cc (sym (ap after_name failed) ∙ h))
  | inr (w, is) ↦
      (w, strip_prefix_sound name t w is, equals-HasEnd w found (sym (ap after_name is) ∙ h))
]

-- a match begins an assignment, at a boundary
match-shape :
    (name : Text) (word : Bool) (c : ℕ) (cs : Text) (found : Text × Text)
    → match_here name word (c ∷ cs) ≡ some found
    → (boundary word c ≡ true) × (assignment name (c ∷ cs) ≡ some found)
unfolding match_here
match-shape name word c cs found h = elim (Bool-cases (boundary word c)) [
  | inl at ↦ (at, sym (ap (λ b. elim b [ true ↦ assignment name (c ∷ cs) | false ↦ none ]) at) ∙ h)
  | inr off ↦
      absurd
        (cc (sym (ap (λ b. elim b [ true ↦ assignment name (c ∷ cs) | false ↦ none ]) off) ∙ h))
]

abbrev pub Found : Type 0
Found = Text × Text × Text

-- a character in front of a later match, and the choice between a match here and a later one
abbrev pub pushed : ℕ → Option Found → Option Found
pushed c later = elim later [ none ↦ none | some (x, value, rest) ↦ some (c ∷ x, value, rest) ]

abbrev pub either_match : ℕ → Option (Text × Text) → Option Found → Option Found
either_match c here later = elim here [
  | some (value, rest) ↦ some ([], value, rest)
  | none ↦ pushed c later
]

-- where a search finds its match
search-cases :
    (name : Text) (word : Bool) (c : ℕ) (cs x old rest : Text)
    → search_from name word (c ∷ cs) ≡ some (x, old, rest)
    → ((match_here name word (c ∷ cs) ≡ some (old, rest)) × (x ≡ []))
      ⊎ ((match_here name word (c ∷ cs) ≡ none)
          × (y : Text) × (search_from name (is_word c) cs ≡ some (y, old, rest))
          × (x ≡ c ∷ y))
unfolding search_from
search-cases name word c cs x old rest h =
    let here = match_here name word (c ∷ cs) in
    let later = search_from name (is_word c) cs in
    elim (Option-cases here) [
      | inr ((value, behind), is) ↦
          let e = first_found value behind (sym (ap (λ o. either_match c o later) is) ∙ h) in
          inl (is ∙ e.1, e.0)
      | inl none_here ↦ elim (Option-cases later) [
        | inl none_later ↦ absurd (
            nothing
              (sym (ap (λ o. either_match c o later) none_here ∙ ap (pushed c) none_later) ∙ h))
        | inr ((y, value, behind), is) ↦
            let e =
              later_found y value behind
                (sym (ap (λ o. either_match c o later) none_here ∙ ap (pushed c) is) ∙ h) in
            inr (none_here, y, is ∙ e.1, e.0)
      ]
    ]
  where
    first_found :
        (value behind : Text)
        → ◌≡◌ {A = Option Found} (some ([], value, behind)) (some (x, old, rest))
        → (x ≡ []) × ◌≡◌ {A = Option (Text × Text)} (some (value, behind)) (some (old, rest))
    first_found value behind e = (cc, cc)

    later_found :
        (y value behind : Text)
        → ◌≡◌ {A = Option Found} (some (c ∷ y, value, behind)) (some (x, old, rest))
        → (x ≡ c ∷ y) × ◌≡◌ {A = Option Found} (some (y, value, behind)) (some (y, old, rest))
    later_found y value behind e = (cc, cc)

    nothing : ◌≡◌ {A = Option Found} none (some (x, old, rest)) → ⊥
    nothing e = cc

-- What a search finds lies in the text: before it, the name, and an assignment's rest.
search-shape :
    (name : Text) (word : Bool) (text x old rest : Text)
    → search_from name word text ≡ some (x, old, rest)
    → (w : Text) × (text ≡ x ++ (name ++ w)) × HasEnd w
unfolding search_from
search-shape name word [] x old rest h = absurd (cc)
search-shape name word (c ∷ cs) x old rest h = elim (search-cases name word c cs x old rest h) [
  | inl (is, empty) ↦
      let (w, same, end) =
        assignment-shape name (c ∷ cs) (old, rest) (match-shape name word c cs (old, rest) is).1 in
      (w, same ∙ ap (λ y. y ++ (name ++ w)) (sym empty), end)
  | inr (_, y, later, is) ↦
      let (w, same, end) = search-shape name (is_word c) cs y old rest later in
      (w, ap (λ z. c ∷ z) same ∙ ap (λ z. z ++ (name ++ w)) (sym is), end)
]

-- A name, by its first character and by its last, and what a new assignment to it consists of.
module _ (c1 e : ℕ) (t n tail value : Text) (ends : EndsName e) (shape : c1 ∷ t ≡ n ++ e ∷ [])
    (fresh : (rest : Text)
      → assignment (c1 ∷ t) ((c1 ∷ t) ++ (tail ++ rest)) ≡ some (value, rest)) where
  abbrev name : Text
  name = c1 ∷ t

  match_at :
      (word : Bool) (text : Text) (found : Text × Text)
      → boundary word c1 ≡ true
      → assignment name (c1 ∷ text) ≡ some found
      → search_from name word (c1 ∷ text) ≡ some ([], found.0, found.1)
  unfolding search_from match_here
  match_at word text found at is =
      ap
        (λ b.
          either_match c1 (elim b [ true ↦ assignment name (c1 ∷ text) | false ↦ none ])
            (search_from name (is_word c1) text))
        at
      ∙ ap (λ o. either_match c1 o (search_from name (is_word c1) text)) is

  match_past :
      (word : Bool) (c : ℕ) (text y old rest : Text)
      → match_here name word (c ∷ text) ≡ none
      → search_from name (is_word c) text ≡ some (y, old, rest)
      → search_from name word (c ∷ text) ≡ some (c ∷ y, old, rest)
  unfolding search_from
  match_past word c text y old rest none_here later =
      ap (λ o. either_match c o (search_from name (is_word c) text)) none_here ∙ ap (pushed c) later

  reshape : (y w : Text) → y ++ (name ++ w) ≡ (y ++ n) ++ e ∷ w
  reshape y w =
      ap (λ z. y ++ (z ++ w)) shape
      ∙ (ap (λ z. y ++ z) (append_assoc n (e ∷ []) w) ∙ sym (append_assoc y n (e ∷ w)))

  -- no match begins in front of the name if only the text behind it changes
  none-moves :
      (word : Bool) (c : ℕ) (y w v : Text)
      → HasEnd w
      → match_here name word (c ∷ (y ++ (name ++ w))) ≡ none
      → match_here name word (c ∷ (y ++ (name ++ v))) ≡ none
  unfolding match_here
  none-moves word c y w v end was = elim (Bool-cases (boundary word c)) [
    | inr off ↦
        ap (λ b. elim b [ true ↦ assignment name (c ∷ (y ++ (name ++ v))) | false ↦ none ]) off
    | inl at ↦
        let start = λ (u : Text). elim_at at u in
        start v
        ∙ (ap (λ z. assignment name (c ∷ z)) (reshape y v)
            ∙ name-moves name (c ∷ (y ++ n)) w v e ends end
                (omega (arith, length-append y n, length-append n (e ∷ []), ap length shape))
                (sym (ap (λ z. assignment name (c ∷ z)) (reshape y w)) ∙ (sym (start w) ∙ was)))
  ]
    where
      elim_at :
          boundary word c ≡ true
          → (u : Text)
          → elim (boundary word c) [
            | true ↦ assignment name (c ∷ (y ++ (name ++ u)))
            | false ↦ none
          ]
            ≡ assignment name (c ∷ (y ++ (name ++ u)))
      elim_at at u =
          ap (λ b. elim b [ true ↦ assignment name (c ∷ (y ++ (name ++ u))) | false ↦ none ]) at

  first_is : (c : ℕ) (cs w : Text) → c ∷ cs ≡ name ++ w → c ≡ c1
  first_is c cs w h = cc

  -- Behind a substitution of the first assignment the search finds the new one at the same place.
  pub search-again :
      (word : Bool) (text x old rest : Text)
      → search_from name word text ≡ some (x, old, rest)
      → search_from name word (x ++ (name ++ (tail ++ rest))) ≡ some (x, value, rest)
  unfolding search_from
  search-again word [] x old rest h = absurd (cc)
  search-again word (c ∷ cs) x old rest h = elim (search-cases name word c cs x old rest h) [
    | inl (is, empty) ↦
        let (at, here) = match-shape name word c cs (old, rest) is in
        let (w, same, _) = assignment-shape name (c ∷ cs) (old, rest) here in
        subst (λ y. search_from name word (y ++ (name ++ (tail ++ rest))) ≡ some (y, value, rest))
          (sym empty)
          (match_at word (t ++ (tail ++ rest)) (value, rest)
            (subst (λ d. boundary word d ≡ true) (first_is c cs w same) at) (fresh rest))
    | inr (none_here, y, later, is) ↦
        let (w, same, end) = search-shape name (is_word c) cs y old rest later in
        let before = subst (λ z. match_here name word (c ∷ z) ≡ none) same none_here in
        subst (λ z. search_from name word (z ++ (name ++ (tail ++ rest))) ≡ some (z, value, rest))
          (sym is)
          (match_past word c (y ++ (name ++ (tail ++ rest))) y value rest
            (none-moves word c y w (tail ++ rest) end before)
            (search-again (is_word c) cs y old rest later))
  ]
