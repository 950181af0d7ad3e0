-- ===== src/Overlay/Interrupts/Specs.antt =====
-- How `interrupt_specs` shares out the cells among the names, and where it fails.
use native.Mathlib.Nat.{div-add-mod, zero-div, zero-mod}
use zynq_rtl_flow.Base.{
  ℕ, zero, suc, ◌*◌, ◌/◌, ◌%◌, ◌<◌, List, [], ◌∷◌, ◌++◌, map, ◌≡◌, ◌⊎◌, inl, inr, refl, sym, ap,
  ◌∙◌, ok, err, value_error, none, arith, ok-injective, All, length, take, drop, length-take,
  length-drop, take-append-drop,
}
use zynq_rtl_flow.Str.{Text, codes, is_empty, join, split}
use zynq_rtl_flow.Re.{quoted}
use zynq_rtl_flow.Overlay.Nodes.{split_node, property_value, value_or_empty}
use zynq_rtl_flow.Overlay.Interrupts.{chunks, specs_of, interrupt_specs, align_channel_interrupts}

-- the concatenation of the groups
abbrev pub concat : List (List Text) → List Text
concat [] = []
concat (g ∷ groups) = g ++ concat groups

-- groups of `width` cells each that make up the cells, in order
pub record Groups (count width : ℕ) (cells : List Text) (specs : List Text) : Type 0 where
  pub groups : List (List Text)
  pub joined : specs ≡ map (join (b' ' ∷ [])) groups
  pub one_per_name : length groups ≡ count
  pub as_wide : All (λ g. length g ≡ width) groups
  pub in_order : concat groups ≡ cells

chunks-Groups :
    (count width : ℕ) (cells : List Text)
    → length cells ≡ count * width
    → Groups count width cells (chunks count width cells)
unfolding chunks
chunks-Groups zero width [] h = record {
  groups = [];
  joined = refl;
  one_per_name = refl;
  as_wide = tt;
  in_order = refl;
}
chunks-Groups zero width (x ∷ cells) h = absurd (omega arith)
chunks-Groups (suc count) width cells h =
    let rest =
      chunks-Groups count width (drop width cells) (omega (arith, length-drop width cells)) in
    record {
      groups = take width cells ∷ rest.groups;
      joined = ap (◌∷◌ (join (b' ' ∷ []) (take width cells))) rest.joined;
      one_per_name = ap suc rest.one_per_name;
      as_wide = (omega (arith, length-take width cells), rest.as_wide);
      in_order = ap (◌++◌ (take width cells)) rest.in_order ∙ take-append-drop width cells;
    }

specs_of-ok :
    (cells names specs : List Text)
    → specs_of cells names ≡ ok specs
    → (specs ≡ [])
      ⊎ ((length cells % length names ≡ 0)
          × (0 < length names)
          × (0 < length cells / length names)
          × (specs ≡ chunks (length names) (length cells / length names) cells))
unfolding specs_of is_empty
specs_of-ok cells [] specs h = inl (sym (ok-injective h))
specs_of-ok cells (n ∷ names) specs h = ground arith

-- If the specifiers are given at all, then either there are none, or there is one for each name, all
-- of one width greater than 0, and together they are the cells in order.
pub specs_of_lem :
    (cells names specs : List Text)
    → specs_of cells names ≡ ok specs
    → (specs ≡ []) ⊎ ((width : ℕ) × (0 < width) × Groups (length names) width cells specs)
specs_of_lem cells names specs h = elim (specs_of-ok cells names specs h) [
  | inl e ↦ inl e
  | inr (m, n, w, e) ↦
      let width = length cells / length names in
      let shared : length cells ≡ length names * (length cells / length names) =
        omega (arith, div-add-mod (length cells) (length names)) in
      inr (width, w, rw e (chunks-Groups (length names) width cells shared))
]

specs_of-no_cells : (n : Text) (names : List Text) → specs_of [] (n ∷ names) ≡ err value_error
unfolding specs_of is_empty
specs_of-no_cells n names =
    ground (arith, zero-div (suc (length names)), zero-mod (suc (length names)))

-- the names that `align_channel_interrupts` finds in the node's own text
abbrev pub names_in : Text → List Text
names_in own = quoted (value_or_empty (property_value own (codes "interrupt-names")))

interrupt_specs-no_cells :
    (own n : Text) (names : List Text)
    → property_value own (codes "interrupts") ≡ none
    → interrupt_specs own (n ∷ names) ≡ err value_error
unfolding interrupt_specs split
interrupt_specs-no_cells own n names e = rw e (specs_of-no_cells n names)

-- A node that names its interrupts and has no `interrupts` property stops the script with a
-- `ValueError`: the width of a specifier comes out as 0, which `range` refuses as its step.
pub align_channel_interrupts-no_cells :
    (block own : Text) (children : List Text) (n : Text) (names : List Text)
    → split_node block ≡ ok (own, children)
    → names_in own ≡ n ∷ names
    → property_value own (codes "interrupts") ≡ none
    → align_channel_interrupts block ≡ err value_error
unfolding align_channel_interrupts
align_channel_interrupts-no_cells block own children n names s h e =
    rw (s, h, interrupt_specs-no_cells own n names e) refl
