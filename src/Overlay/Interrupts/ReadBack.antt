-- ===== src/Overlay/Interrupts/ReadBack.antt =====
-- What `property_value` of flows/embedded/overlay.py reads from a channel node that
-- `align_channel_interrupts` rewrote.
use zynq_rtl_flow.Base.{
  List, map, Result, ok, ◌>>=◌, All-append, [], ◌∷◌, ◌++◌, append_assoc, Option, none, some,
  Option-cases, false, ◌==◌, ◌≡◌, inl, inr, refl, sym, ap, ◌∙◌, All,
}
use zynq_rtl_flow.Str.{Text, codes, is_space, strip_prefix, lstrip, strip}
use zynq_rtl_flow.Re.{cut, assignment, search_assignment}
use zynq_rtl_flow.Re.Template.{
  Piece, char, expand, between, sub_assignment, NoEscape, template-plain, expand-char,
}
use zynq_rtl_flow.Re.Assignment.{after_name, cut-end, cut-other, ahead_of, strip_prefix_self}
use zynq_rtl_flow.Re.Substitution.{Found, search-again}
use zynq_rtl_flow.Overlay.Nodes.{property_value}
use zynq_rtl_flow.Overlay.Interrupts.{fix_channel}

-- no semicolon is in the text
abbrev pub NoEnd : Text → Type 0
NoEnd = All (λ c. (c == b';') ≡ false)

pub cut-whole : (v rest : Text) → NoEnd v → cut b';' (v ++ b';' ∷ rest) ≡ some (v, rest)
cut-whole [] rest clean = cut-end b';' rest refl
cut-whole (c ∷ v) rest (other, clean) =
    cut-other c (v ++ b';' ∷ rest) other ∙ ap (ahead_of c) (cut-whole v rest clean)

NoEnd-closed : (v : Text) → NoEnd v → NoEnd (v ++ b'>' ∷ [])
NoEnd-closed [] clean = (refl, tt)
NoEnd-closed (c ∷ v) (other, clean) = (other, NoEnd-closed v clean)

abbrev pub interrupts : Text
interrupts = codes "interrupts"

-- the value that a specifier becomes, and what stands behind the name
abbrev pub cells : Text → Text
cells spec = codes "<" ++ strip spec ++ codes ">"

abbrev assigned : Text → Text
assigned spec = codes " = <" ++ strip spec ++ codes ">;"

value_first :
    (v rest : Text)
    → NoEnd v
    → cut b';' (b'<' ∷ ((v ++ codes ">;") ++ rest)) ≡ some (codes "<" ++ v ++ codes ">", rest)
value_first v rest clean =
    ap (λ t. cut b';' (b'<' ∷ t))
      (append_assoc v (codes ">;") rest ∙ sym (append_assoc v (codes ">") (b';' ∷ rest)))
    ∙ cut-whole (b'<' ∷ (v ++ codes ">")) rest (refl, NoEnd-closed v clean)

assigned-fresh :
    (spec rest : Text)
    → NoEnd (strip spec)
    → assignment interrupts (interrupts ++ (assigned spec ++ rest)) ≡ some (cells spec, rest)
unfolding assignment lstrip strip_prefix is_space
assigned-fresh spec rest clean =
    ap after_name (strip_prefix_self interrupts (assigned spec ++ rest))
    ∙ value_first (strip spec) rest clean

-- the search behind a substitution
search-fixed :
    (spec child x old rest : Text)
    → NoEnd (strip spec)
    → search_assignment interrupts child ≡ some (x, old, rest)
    → search_assignment interrupts (x ++ (interrupts ++ (assigned spec ++ rest)))
      ≡ some (x, cells spec, rest)
unfolding search_assignment is_space
search-fixed spec child x old rest clean found =
    search-again b'i' b's' (codes "nterrupts") (codes "interrupt") (assigned spec) (cells spec)
      (refl, refl) refl (λ rest. assigned-fresh spec rest clean) false child x old rest found

-- the two operations on a text by what its search found
abbrev value_found : Option Found → Option Text
value_found found = elim found [ none ↦ none | some (_, value, _) ↦ some value ]

abbrev replaced : Text → List Piece → Option Found → Text
replaced text pieces found = elim found [
  | none ↦ text
  | some (x, _, rest) ↦ x ++ expand (between x rest text) pieces ++ rest
]

abbrev behind_template : Text → Result (List Piece) → Result Text
behind_template text read =
    read >>= λ pieces. ok (replaced text pieces (search_assignment interrupts text))

substituted :
    (new child x old rest : Text)
    → NoEscape new
    → search_assignment interrupts child ≡ some (x, old, rest)
    → sub_assignment interrupts new child ≡ ok (x ++ new ++ rest)
unfolding sub_assignment
substituted new child x old rest plain found =
    ap (behind_template child) (template-plain new plain)
    ∙ ap ok (
        ap (replaced child (map char new)) found
        ∙ ap (λ t. x ++ t ++ rest) (expand-char (between x rest child) new))

new-NoEscape : (spec : Text) → NoEscape (strip spec) → NoEscape (interrupts ++ assigned spec)
new-NoEscape spec plain =
    All-append (λ c. (c == b'\\') ≡ false) (codes "interrupts = <" ++ strip spec) (codes ">;")
      (All-append (λ c. (c == b'\\') ≡ false) (codes "interrupts = <") (strip spec) opening plain)
      (refl, (refl, tt))
  where
    opening : NoEscape (codes "interrupts = <")
    opening = (
      refl,
      (
        refl,
        (
          refl,
          (
            refl,
            (refl, (refl, (refl, (refl, (refl, (refl, (refl, (refl, (refl, (refl, tt)))))))))),
          ),
        ),
      ),
    )

-- a channel node with an interrupts property, by the text around it
rewritten :
    (spec child x old rest : Text)
    → NoEscape (strip spec)
    → search_assignment interrupts child ≡ some (x, old, rest)
    → fix_channel spec child ≡ ok (x ++ (interrupts ++ (assigned spec ++ rest)))
unfolding fix_channel
rewritten spec child x old rest plain found =
    let new = interrupts ++ assigned spec in
    substituted new child x old rest (new-NoEscape spec plain) found
    ∙ ap ok (append_assoc x new rest)

found_of :
    (child old : Text)
    → property_value child interrupts ≡ some old
    → (x : Text) × (rest : Text) × (search_assignment interrupts child ≡ some (x, old, rest))
unfolding property_value
found_of child old h = elim (Option-cases (search_assignment interrupts child)) [
  | inl failed ↦ absurd (cc (sym (ap value_found failed) ∙ h))
  | inr ((x, value, rest), is) ↦
      (x, rest, is ∙ ap (λ v. some (x, v, rest)) (same_value value (sym (ap value_found is) ∙ h)))
]
  where
    same_value : (value : Text) → some value ≡ some old → value ≡ old
    same_value value e = cc

-- What the alignment writes into a channel node that has an `interrupts` property is what
-- `property_value` reads there: the stripped specifier in angle brackets, if the specifier holds no
-- semicolon and no backslash, which `re.sub` would take for an escape. Aligning the result with
-- another specifier without a backslash gives what aligning the node with that one gives.
pub fix_channel-reads_back :
    (spec other child old : Text)
    → property_value child interrupts ≡ some old
    → NoEnd (strip spec)
    → NoEscape (strip spec)
    → NoEscape (strip other)
    → (fixed : Text) × (fix_channel spec child ≡ ok fixed)
      × (property_value fixed interrupts ≡ some (cells spec))
      × (fix_channel other fixed ≡ fix_channel other child)
unfolding property_value
fix_channel-reads_back spec other child old h clean plain others =
    let (x, rest, found) = found_of child old h in
    let fixed = x ++ (interrupts ++ (assigned spec ++ rest)) in
    let again = search-fixed spec child x old rest clean found in
    (
      fixed,
      rewritten spec child x old rest plain found,
      ap value_found again,
      rewritten other fixed x (cells spec) rest others again
          ∙ sym (rewritten other child x old rest others found),
    )
