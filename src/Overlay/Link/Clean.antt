-- ===== src/Overlay/Link/Clean.antt =====
-- The values that `link_dma_client` of flows/embedded/overlay.py writes: no character of them ends a
-- property.
use mathlib.Core.Path.{subst}
use zynq_rtl_flow.Base.{
  ℕ, List, [], ◌∷◌, ◌++◌, map, Option, none, some, Option-cases, Bool, true, Bool-cases, ◌≡◌, inl,
  inr, refl, sym, ap, ◌∙◌, arith, Result, ok, ok-injective, err, index_error, leb, if◌then◌else◌,
  All, All-append,
}
use zynq_rtl_flow.Str.{
  Text, codes, is_space, strip_prefix, lstrip, join, contains, decimal, digits, splitlines,
}
use zynq_rtl_flow.Re
use zynq_rtl_flow.Re.{
  is_word, is_name_start, is_name_char, name_run, identifier, assignment, search_from,
  search_assignment,
}
use zynq_rtl_flow.Overlay.Nodes.{property_value, value_or_empty}
use zynq_rtl_flow.Overlay.Interrupts.{DmaChannel, dma_channels, channels_in, in_quotes}
use zynq_rtl_flow.Overlay.Link.{
  labelled, channels_of, insert_channel, sort_channels, leading_space, indent_of, reference,
}
use zynq_rtl_flow.Overlay.Link.Property.{IsClean, Starts, Starts-append}

pub join-All :
    (P : ℕ → Type 0) (sep : Text) (texts : List Text)
    → All P sep
    → All (All P) texts
    → All P (join sep texts)
unfolding join
join-All P sep [] hsep all = tt
join-All P sep (x ∷ []) hsep (hx, _) = hx
join-All P sep (x ∷ y ∷ texts) hsep (hx, all) =
    All-append P (x ++ sep) (join sep (y ∷ texts)) (All-append P x sep hx hsep)
      (join-All P sep (y ∷ texts) hsep all)

pub join-Starts : (sep x : Text) (texts : List Text) → Starts x → Starts (join sep (x ∷ texts))
unfolding join
join-Starts sep x [] starts = starts
join-Starts sep x (y ∷ texts) starts =
    Starts-append (x ++ sep) (join sep (y ∷ texts)) (Starts-append x sep starts)

-- a channel whose cell and name can stand in a value
abbrev pub CleanChannel : DmaChannel → Type 0
CleanChannel c = All IsClean (decimal c.cell) × All IsClean c.name

pub All-references :
    (label : Text) (channels : List DmaChannel)
    → All IsClean label
    → All CleanChannel channels
    → All (All IsClean) (map (reference label) channels)
All-references label [] clean all = tt
All-references label (c ∷ channels) clean (hc, all) = (
  All-append IsClean (codes "<&" ++ label ++ codes " " ++ decimal c.cell) (codes ">")
      (All-append IsClean (codes "<&" ++ label ++ codes " ") (decimal c.cell)
        (All-append IsClean (codes "<&" ++ label) (codes " ")
          (All-append IsClean (codes "<&") label ((refl, refl), ((refl, refl), tt)) clean)
          ((refl, refl), tt))
        hc.0)
      ((refl, refl), tt),
  All-references label channels clean all,
)

pub All-names :
    (channels : List DmaChannel)
    → All CleanChannel channels
    → All (All IsClean) (map (λ c. in_quotes c.name) channels)
All-names [] all = tt
All-names (c ∷ channels) (hc, all) = (
  ((refl, refl), All-append IsClean c.name (codes "\"") hc.1 ((refl, refl), tt)),
  All-names channels all,
)

-- The channels of a DMA node are those of the table.
channels_in-Clean :
    (compatible : Text) (table : List (Text × DmaChannel))
    → All (λ entry. CleanChannel (entry.1)) table
    → All CleanChannel (channels_in compatible table)
unfolding channels_in
channels_in-Clean compatible [] all = tt
channels_in-Clean compatible ((name, channel) ∷ table) (h, all) =
    let rest = channels_in-Clean compatible table all in
    elim (Bool-cases (contains (in_quotes name) compatible)) [
      | inl inside ↦ subst (All CleanChannel) (sym (ap chosen inside)) (h, rest)
      | inr outside ↦ subst (All CleanChannel) (sym (ap chosen outside)) rest
    ]
  where
    chosen : Bool → List DmaChannel
    chosen b = if b then channel ∷ channels_in compatible table else channels_in compatible table

dma_channels-Clean : All (λ entry. CleanChannel (entry.1)) dma_channels
unfolding decimal digits
dma_channels-Clean = (
  (((refl, refl), tt), ((refl, refl), ((refl, refl), tt))),
  ((((refl, refl), tt), ((refl, refl), ((refl, refl), tt))), tt),
)

pub channels_of-Clean : (children : List Text) → All CleanChannel (channels_of children)
unfolding channels_of
channels_of-Clean [] = tt
channels_of-Clean (child ∷ children) =
    let compatible = value_or_empty (property_value child (codes "compatible")) in
    All-append CleanChannel (channels_in compatible dma_channels) (channels_of children)
      (channels_in-Clean compatible dma_channels dma_channels-Clean) (channels_of-Clean children)

insert_channel-Clean :
    (c : DmaChannel) (channels : List DmaChannel)
    → CleanChannel c
    → All CleanChannel channels
    → All CleanChannel (insert_channel c channels)
unfolding insert_channel
insert_channel-Clean c [] hc all = (hc, tt)
insert_channel-Clean c (x ∷ channels) hc (hx, all) = elim (Bool-cases (leb c.cell x.cell)) [
  | inl before ↦
      subst (All CleanChannel)
        (sym (ap (λ b. if b then c ∷ x ∷ channels else x ∷ insert_channel c channels) before))
        (hc, (hx, all))
  | inr behind ↦
      subst (All CleanChannel)
        (sym (ap (λ b. if b then c ∷ x ∷ channels else x ∷ insert_channel c channels) behind))
        (hx, insert_channel-Clean c channels hc all)
]

pub sort_channels-Clean :
    (channels : List DmaChannel)
    → All CleanChannel channels
    → All CleanChannel (sort_channels channels)
unfolding sort_channels
sort_channels-Clean [] all = tt
sort_channels-Clean (c ∷ channels) (hc, all) =
    insert_channel-Clean c (sort_channels channels) hc (sort_channels-Clean channels all)

-- The label is an identifier.
name_char-Clean : (c : ℕ) → is_name_char c ≡ true → IsClean c
unfolding is_name_char is_word is_name_start
name_char-Clean c h = (ground arith, ground arith)

name_start-Clean : (c : ℕ) → is_name_start c ≡ true → IsClean c
unfolding is_name_start
name_start-Clean c h = (ground arith, ground arith)

name_run-Clean : (t : Text) → All IsClean (name_run t).0
unfolding name_run
name_run-Clean [] = tt
name_run-Clean (c ∷ cs) = elim (Bool-cases (is_name_char c)) [
  | inl inside ↦
      subst (λ (run : Text × Text). All IsClean run.0) (sym (ap chosen inside))
        (name_char-Clean c inside, name_run-Clean cs)
  | inr outside ↦ subst (λ (run : Text × Text). All IsClean run.0) (sym (ap chosen outside)) tt
]
  where
    chosen : Bool → Text × Text
    chosen b = if b then (c ∷ (name_run cs).0, (name_run cs).1) else ([], c ∷ cs)

-- the name of an identifier
abbrev CleanName : Option (Text × Text) → Type 0
CleanName none = Unit
CleanName (some (name, rest)) = All IsClean name

identifier-Clean : (t : Text) → CleanName (identifier t)
unfolding identifier
identifier-Clean [] = tt
identifier-Clean (c ∷ cs) = elim (Bool-cases (is_name_start c)) [
  | inl inside ↦
      subst CleanName (sym (ap chosen inside)) (name_start-Clean c inside, name_run-Clean cs)
  | inr outside ↦ subst CleanName (sym (ap chosen outside)) tt
]
  where
    chosen : Bool → Option (Text × Text)
    chosen b = if b then some (c ∷ (name_run cs).0, (name_run cs).1) else none

-- The indentation is made of spaces.
pub leading_space-spaces : (t : Text) → All (λ c. is_space c ≡ true) (leading_space t)
unfolding leading_space
leading_space-spaces [] = tt
leading_space-spaces (c ∷ t) = elim (Bool-cases (is_space c)) [
  | inl space ↦
      subst (All (λ c. is_space c ≡ true))
        (sym (ap (λ b. if b then c ∷ leading_space t else []) space))
        (space, leading_space-spaces t)
  | inr solid ↦
      subst (All (λ c. is_space c ≡ true))
        (sym (ap (λ b. if b then c ∷ leading_space t else []) solid)) tt
]

-- the steps behind an identifier and behind the split into lines
abbrev label_if : Text → Option Text → Option (Text × Text)
label_if name colon = elim colon [ none ↦ none | some behind ↦ some (name, behind) ]

abbrev label_of : Option (Text × Text) → Option (Text × Text)
label_of found = elim found [
  | none ↦ none
  | some (name, rest) ↦ label_if name (strip_prefix (b':' ∷ []) (lstrip rest))
]

abbrev name_of_label : Option (Text × Text) → Option Text
name_of_label found = elim found [ none ↦ none | some (name, _) ↦ some name ]

abbrev indent_in : List Text → Result Text
indent_in lines = elim lines [
  | [] ↦ err index_error
  | _ ∷ more ↦ elim more [ [] ↦ err index_error | line ∷ _ ↦ ok (leading_space line) ]
]

IsClean-label_of :
    (found : Option (Text × Text)) (label : Text)
    → CleanName found
    → name_of_label (label_of found) ≡ some label
    → All IsClean label
IsClean-label_of none label clean h = absurd (cc)
IsClean-label_of (some (name, rest)) label clean h =
    elim (Option-cases (strip_prefix (b':' ∷ []) (lstrip rest))) [
      | inl failed ↦ absurd (cc (sym (ap (λ o. name_of_label (label_if name o)) failed) ∙ h))
      | inr (behind, found) ↦
          subst (All IsClean)
            (same_name (sym (ap (λ o. name_of_label (label_if name o)) found) ∙ h)) clean
    ]
  where
    same_name : some name ≡ some label → name ≡ label
    same_name e = cc

pub labelled-Clean : (block label : Text) → labelled block ≡ some label → All IsClean label
unfolding labelled Re.label
labelled-Clean block label h = elim (Option-cases (identifier (lstrip block))) [
  | inl failed ↦ absurd (cc (sym (ap (λ o. name_of_label (label_of o)) failed) ∙ h))
  | inr (found, is) ↦
      IsClean-label_of (some found) label (subst CleanName is (identifier-Clean (lstrip block)))
        (sym (ap (λ o. name_of_label (label_of o)) is) ∙ h)
]

pub indent_of-spaces :
    (client indent : Text) → indent_of client ≡ ok indent → All (λ c. is_space c ≡ true) indent
unfolding indent_of
indent_of-spaces client indent h = second (splitlines client) h
  where
    second : (lines : List Text) → indent_in lines ≡ ok indent → All (λ c. is_space c ≡ true) indent
    second [] h = absurd (cc)
    second (_ ∷ []) h = absurd (cc)
    second (_ ∷ line ∷ _) h =
        subst (All (λ c. is_space c ≡ true)) (ok-injective h) (leading_space-spaces line)
