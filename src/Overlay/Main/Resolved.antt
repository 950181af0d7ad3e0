-- ===== src/Overlay/Main/Resolved.antt =====
-- An overlay that the script writes references only labels that resolve.
use zynq_rtl_flow.Base.{
  List, [], ◌∷◌, true, ◌||◌, ◌≡◌, ◌≢◌, ◌↔◌, refl, ok, All, arith, bind-eq-ok, Bool-cases, inl, inr,
}
use zynq_rtl_flow.Str.{Text, is_empty}
use zynq_rtl_flow.Re.{labels, references}
use zynq_rtl_flow.Overlay.Main.{
  resolvable, member, add_sorted, missing_from, found, unresolved, overlay_nodes, render, report,
  main, linked_nodes, resolve,
}

-- a label that the running kernel exports or one of the nodes defines
abbrev pub Resolves : List Text → Text → Type 0
Resolves nodes name = (member name resolvable || member name (found labels nodes)) ≡ true

add_sorted-nonempty : (x : Text) (ys : List Text) → add_sorted x ys ≢ []
unfolding add_sorted
add_sorted-nonempty x [] h = ground arith
add_sorted-nonempty x (y ∷ ys) h = ground arith

missing_from-cons :
    (defined : List Text) (name : Text) (names : List Text)
    → missing_from defined (name ∷ names) ≡ []
    → ((member name resolvable || member name defined) ≡ true) × (missing_from defined names ≡ [])
unfolding missing_from
missing_from-cons defined name names h =
    ground (arith, add_sorted-nonempty name (missing_from defined names))

missing_from-none :
    (defined names : List Text)
    → missing_from defined names ≡ []
    → All (λ name. (member name resolvable || member name defined) ≡ true) names
missing_from-none defined [] h = tt
missing_from-none defined (name ∷ names) h =
    let (here, rest) = missing_from-cons defined name names h in
    (here, missing_from-none defined names rest)

missing_from-All :
    (defined names : List Text)
    → All (λ name. (member name resolvable || member name defined) ≡ true) names
    → missing_from defined names ≡ []
unfolding missing_from
missing_from-All defined [] h = refl
missing_from-All defined (name ∷ names) h = rw (h.0) (missing_from-All defined names h.1)

unresolved_iff :
    (nodes : List Text) → (unresolved nodes ≡ []) ↔ All (Resolves nodes) (found references nodes)
unfolding unresolved
unresolved_iff nodes = (
  missing_from-none (found labels nodes) (found references nodes),
  missing_from-All (found labels nodes) (found references nodes),
)

resolve-ok :
    (nodes checked : List Text)
    → resolve nodes ≡ ok checked
    → (nodes ≡ checked) × (unresolved nodes ≡ [])
unfolding resolve is_empty
resolve-ok nodes checked h = elim (Bool-cases (is_empty (unresolved nodes))) [
  | inl e ↦ ground arith
  | inr e ↦ ground arith
]

-- What a run that writes an overlay went through.
pub record Written (dst firmware ip body text : Text) (lines : List Text) : Type 0 where
  pub nodes : List Text
  pub linked : linked_nodes ip body ≡ ok nodes
  pub resolved : All (Resolves nodes) (found references nodes)
  pub text_is : text ≡ render firmware nodes
  pub lines_are : lines ≡ report dst nodes

-- If the script writes an overlay, then every label that one of its nodes references is exported by
-- the running kernel or defined by a node of the overlay; the text is the fragment with these nodes.
pub main_resolved :
    (dst firmware ip body : Text) (out : Text × List Text)
    → main dst firmware ip body ≡ ok out
    → Written dst firmware ip body (out.0) (out.1)
unfolding main overlay_nodes
main_resolved dst firmware ip body out h =
    let (nodes, p, q) =
      bind-eq-ok (overlay_nodes ip body) (λ ns. ok (render firmware ns, report dst ns)) h in
    let (before, l, r) = bind-eq-ok (linked_nodes ip body) resolve p in
    let (same, none_left) = resolve-ok before nodes r in
    record {
      nodes = nodes;
      linked = rw (← same) l;
      resolved = (unresolved_iff nodes).0 (rw (← same) none_left);
      text_is = cc;
      lines_are = cc;
    }
