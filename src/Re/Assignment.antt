-- ===== src/Re/Assignment.antt =====
-- What `re.sub` of an assignment leaves for `re.search` to find.
use mathlib.Core.Path.{subst}
use zynq_rtl_flow.Base.{
  ℕ, ◌≤◌, [], ◌∷◌, ◌++◌, length, Option, none, some, Option-cases, Bool, true, false, Bool-cases,
  ◌==◌, ==_refl, ◌≡◌, ◌≢◌, inl, inr, refl, sym, ap, ◌∙◌, arith, if◌then◌else◌,
}
use zynq_rtl_flow.Str.{Text, is_space, strip_prefix, lstrip}
use zynq_rtl_flow.Re.{cut, assignment}

-- a text behind what was found
abbrev appended : Text → Option Text → Option Text
appended w none = none
appended w (some r) = some (r ++ w)

choose-appended :
    (b : Bool) (x y : Option Text) (w : Text)
    → x ≡ appended w y
    → elim b [ true ↦ x | false ↦ none ] ≡ appended w (elim b [ true ↦ y | false ↦ none ])
choose-appended true x y w h = h
choose-appended false x y w h = refl

strip_prefix-longer :
    (p z w : Text) → length p ≤ length z → strip_prefix p (z ++ w) ≡ appended w (strip_prefix p z)
unfolding strip_prefix
strip_prefix-longer [] z w h = refl
strip_prefix-longer (p ∷ ps) [] w h = absurd (omega (arith, h))
strip_prefix-longer (p ∷ ps) (c ∷ z) w h =
    choose-appended (p == c) (strip_prefix ps (z ++ w)) (strip_prefix ps z) w
      (strip_prefix-longer ps z w (omega (arith, h)))

pub lstrip-end : (r w : Text) (e : ℕ) → is_space e ≡ false → lstrip (r ++ e ∷ w) ≡ lstrip r ++ e ∷ w
unfolding lstrip
lstrip-end [] w e h = ap (λ b. if b then lstrip w else e ∷ w) h
lstrip-end (c ∷ r) w e h = elim (Bool-cases (is_space c)) [
  | inl space ↦
      ap (λ b. if b then lstrip (r ++ e ∷ w) else c ∷ (r ++ e ∷ w)) space
      ∙ (lstrip-end r w e h ∙ sym (ap (λ b. (if b then lstrip r else c ∷ r) ++ e ∷ w) space))
  | inr solid ↦
      ap (λ b. if b then lstrip (r ++ e ∷ w) else c ∷ (r ++ e ∷ w)) solid
      ∙ sym (ap (λ b. (if b then lstrip r else c ∷ r) ++ e ∷ w) solid)
]

equals-longer :
    (y w : Text) (e : ℕ)
    → (b'=' == e) ≡ false
    → strip_prefix (b'=' ∷ []) (y ++ e ∷ w) ≡ appended (e ∷ w) (strip_prefix (b'=' ∷ []) y)
unfolding strip_prefix
equals-longer [] w e h = ap (λ b. elim b [ true ↦ some w | false ↦ none ]) h
equals-longer (d ∷ y) w e h = choose-appended (b'=' == d) (some (y ++ e ∷ w)) (some y) (e ∷ w) refl

-- a semicolon is in the text
abbrev pub HasEnd : Text → Type 0
HasEnd t = (found : Text × Text) × (cut b';' t ≡ some found)

-- a character in front of what a cut found
abbrev pub ahead_of : ℕ → Option (Text × Text) → Option (Text × Text)
ahead_of c found = elim found [ none ↦ none | some (x, y) ↦ some (c ∷ x, y) ]

pub cut-end : (c : ℕ) (t : Text) → (c == b';') ≡ true → cut b';' (c ∷ t) ≡ some ([], t)
unfolding cut
cut-end c t h = ap (λ b. if b then some ([], t) else ahead_of c (cut b';' t)) h

pub cut-other :
    (c : ℕ) (t : Text) → (c == b';') ≡ false → cut b';' (c ∷ t) ≡ ahead_of c (cut b';' t)
unfolding cut
cut-other c t h = ap (λ b. if b then some ([], t) else ahead_of c (cut b';' t)) h

pub HasEnd-cons : (c : ℕ) (t : Text) → HasEnd t → HasEnd (c ∷ t)
HasEnd-cons c t ((a, rest), h) = elim (Bool-cases (c == b';')) [
  | inl end ↦ (([], t), cut-end c t end)
  | inr other ↦ ((c ∷ a, rest), cut-other c t other ∙ ap (ahead_of c) h)
]

HasEnd-append : (y t : Text) → HasEnd t → HasEnd (y ++ t)
HasEnd-append [] t h = h
HasEnd-append (c ∷ y) t h = HasEnd-cons c (y ++ t) (HasEnd-append y t h)

pub HasEnd-lstrip : (t : Text) → HasEnd (lstrip t) → HasEnd t
unfolding lstrip
HasEnd-lstrip [] h = h
HasEnd-lstrip (c ∷ t) h = elim (Bool-cases (is_space c)) [
  | inl space ↦
      HasEnd-cons c t
        (HasEnd-lstrip t (subst HasEnd (ap (λ b. if b then lstrip t else c ∷ t) space) h))
  | inr solid ↦ subst HasEnd (ap (λ b. if b then lstrip t else c ∷ t) solid) h
]

-- the steps of the match behind the name
abbrev pub after_equals : Option Text → Option (Text × Text)
after_equals found = elim found [ none ↦ none | some value ↦ cut b';' (lstrip value) ]

abbrev pub after_name : Option Text → Option (Text × Text)
after_name found = elim found [
  | none ↦ none
  | some rest ↦ after_equals (strip_prefix (b'=' ∷ []) (lstrip rest))
]

-- a character that ends a name: no space, no sign of equality
abbrev pub EndsName : ℕ → Type 0
EndsName e = (is_space e ≡ false) × ((b'=' == e) ≡ false)

found-end : (y w : Text) (e : ℕ) → EndsName e → HasEnd w → after_equals (some (y ++ e ∷ w)) ≢ none
found-end y w e h end none_found =
    let (found, is) = HasEnd-append (lstrip y) (e ∷ w) (HasEnd-cons e w end) in
    contradiction found (sym (ap (cut b';') (lstrip-end y w e h.0) ∙ is) ∙ none_found)
  where
    contradiction : (found : Text × Text) → some found ≡ none → ⊥
    contradiction found e = cc

-- Where no assignment begins, none begins if only the text behind the next name changes.
equals-moves :
    (r w v : Text) (e : ℕ)
    → EndsName e
    → HasEnd w
    → after_equals (strip_prefix (b'=' ∷ []) (lstrip (r ++ e ∷ w))) ≡ none
    → after_equals (strip_prefix (b'=' ∷ []) (lstrip (r ++ e ∷ v))) ≡ none
equals-moves r w v e h end was =
    let eq : Text = b'=' ∷ [] in
    let same = λ (u : Text).
      ap (strip_prefix eq) (lstrip-end r u e h.0) ∙ equals-longer (lstrip r) u e h.1 in
    elim (Option-cases (strip_prefix eq (lstrip r))) [
      | inl failed ↦ ap after_equals (same v ∙ ap (appended (e ∷ v)) failed)
      | inr (y, found) ↦ absurd (
          found-end y w e h end
            (sym (ap after_equals (same w ∙ ap (appended (e ∷ w)) found)) ∙ was))
    ]

pub name-moves :
    (name z w v : Text) (e : ℕ)
    → EndsName e
    → HasEnd w
    → length name ≤ length z
    → assignment name (z ++ e ∷ w) ≡ none
    → assignment name (z ++ e ∷ v) ≡ none
unfolding assignment
name-moves name z w v e h end short was =
    let same = λ (u : Text). strip_prefix-longer name z (e ∷ u) short in
    elim (Option-cases (strip_prefix name z)) [
      | inl failed ↦ ap after_name (same v ∙ ap (appended (e ∷ v)) failed)
      | inr (r, found) ↦
          ap after_name (same v ∙ ap (appended (e ∷ v)) found)
          ∙ equals-moves r w v e h end
              (sym (ap after_name (same w ∙ ap (appended (e ∷ w)) found)) ∙ was)
    ]

pub strip_prefix_self : (p t : Text) → strip_prefix p (p ++ t) ≡ some t
unfolding strip_prefix
strip_prefix_self [] t = refl
strip_prefix_self (c ∷ p) t =
    ap (λ b. elim b [ true ↦ strip_prefix p (p ++ t) | false ↦ none ]) (==_refl c)
    ∙ strip_prefix_self p t
