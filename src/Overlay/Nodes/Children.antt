-- ===== src/Overlay/Nodes/Children.antt =====
-- `child_nodes` of flows/embedded/overlay.py on a body laid out as the generator lays it out.
use zynq_rtl_flow.Base.{
  zero, suc, List, [], ◌∷◌, ◌++◌, append_assoc, map, true, false, ◌≡◌, ◌≢◌, refl, ap, ◌∙◌, arith,
  if◌then◌else◌, Bool-cases, inl, inr,
}
use zynq_rtl_flow.Base.Int.{ℤ, pos, negsuc, ◌+ℤ◌, ◌==ℤ◌, ==ℤ_sound}
use zynq_rtl_flow.Str.{Text, splitlines}
use zynq_rtl_flow.Overlay.Nodes.{balance, opens, block_of, collect, child_nodes}

-- Lines that close a node from a depth: the depth is back at 0 behind the last, and not before.
pub data Closes : ℤ → List Text → Type 0 where
  closing_line : (d : ℤ) (line : Text) → d +ℤ balance line ≡ pos 0 → Closes d (line ∷ [])
  inner_line :
      (d : ℤ) (line : Text) (lines : List Text)
      → d +ℤ balance line ≢ pos 0
      → Closes (d +ℤ balance line) lines
      → Closes d (line ∷ lines)

-- Lines that are properties, or nodes opened by a line of their own; with the lines of the nodes.
pub data Layout : List Text → List (List Text) → Type 0 where
  no_lines : Layout [] []
  property_line :
      (line : Text) (lines : List Text) (nodes : List (List Text))
      → opens line ≡ false
      → Layout lines nodes
      → Layout (line ∷ lines) nodes
  node_lines :
      (line : Text) (inner lines : List Text) (nodes : List (List Text))
      → opens line ≡ true
      → Closes (pos 1) inner
      → Layout lines nodes
      → Layout (line ∷ (inner ++ lines)) ((line ∷ inner) ∷ nodes)

-- Outside a node the collected lines do not matter.
collect-buf :
    (buf other lines : List Text) → collect (pos 0) buf lines ≡ collect (pos 0) other lines
unfolding collect
collect-buf buf other [] = refl
collect-buf buf other (line ∷ lines) = rw (collect-buf buf other lines) refl

-- One line inside a node, for the depth behind it.
abbrev behind : ℤ → List Text → List Text → List Text
behind depth buf lines =
    let rest = collect depth buf lines in if depth ==ℤ pos 0 then block_of buf ∷ rest else rest

collect-inside :
    (d : ℤ) (buf : List Text) (line : Text) (lines : List Text)
    → d ≢ pos 0
    → collect d buf (line ∷ lines) ≡ behind (d +ℤ balance line) (buf ++ line ∷ []) lines
unfolding collect
collect-inside (pos zero) buf line lines h = absurd (h refl)
collect-inside (pos (suc n)) buf line lines h = refl
collect-inside (negsuc n) buf line lines h = refl

behind-zero :
    (buf lines : List Text) → behind (pos 0) buf lines ≡ block_of buf ∷ collect (pos 0) [] lines
behind-zero buf lines = ap (◌∷◌ (block_of buf)) (collect-buf buf [] lines)

behind-deeper :
    (d : ℤ) (buf lines : List Text) → d ≢ pos 0 → behind d buf lines ≡ collect d buf lines
behind-deeper d buf lines h = elim (Bool-cases (d ==ℤ pos 0)) [
  | inl e ↦ absurd (h (==ℤ_sound d (pos 0) e))
  | inr e ↦ ap (λ b. if b then block_of buf ∷ collect d buf lines else collect d buf lines) e
]

-- The lines that close a node end in its block.
collect-Closes :
    {d : ℤ} {inner : List Text}
    → Closes d inner
    → (buf rest : List Text) → d ≢ pos 0
    → collect d buf (inner ++ rest) ≡ block_of (buf ++ inner) ∷ collect (pos 0) [] rest
collect-Closes (closing_line d line e) buf rest h =
    collect-inside d buf line rest h
    ∙ (ap (λ x. behind x (buf ++ line ∷ []) rest) e ∙ behind-zero (buf ++ line ∷ []) rest)
collect-Closes (inner_line d line lines e inner) buf rest h =
    collect-inside d buf line (lines ++ rest) h
    ∙ (behind-deeper (d +ℤ balance line) (buf ++ line ∷ []) (lines ++ rest) e
        ∙ (collect-Closes inner (buf ++ line ∷ []) rest e
            ∙ ap (λ x. block_of x ∷ collect (pos 0) [] rest) (append_assoc buf (line ∷ []) lines)))

collect-property :
    (line : Text) (lines : List Text)
    → opens line ≡ false
    → collect (pos 0) [] (line ∷ lines) ≡ collect (pos 0) [] lines
unfolding collect
collect-property line lines e = rw e refl

collect-opens :
    (line : Text) (lines : List Text)
    → opens line ≡ true
    → collect (pos 0) [] (line ∷ lines) ≡ collect (pos 1) (line ∷ []) lines
unfolding collect
collect-opens line lines e = rw e refl

one_deep : ◌≢◌ {A = ℤ} (pos 1) (pos 0)
one_deep e = ground arith

collect-Layout :
    {lines : List Text} {nodes : List (List Text)}
    → Layout lines nodes
    → collect (pos 0) [] lines ≡ map block_of nodes
collect-Layout no_lines = unfold collect in refl
collect-Layout (property_line line lines nodes e rest) =
    collect-property line lines e ∙ collect-Layout rest
collect-Layout (node_lines line inner lines nodes e closes rest) =
    collect-opens line (inner ++ lines) e
    ∙ (collect-Closes closes (line ∷ []) lines one_deep
        ∙ ap (◌∷◌ (block_of (line ∷ inner))) (collect-Layout rest))

-- On a body whose lines are properties and nodes, each node opened by a line of its own that ends in
-- a brace and closed where its braces balance for the first time, `child_nodes` gives exactly the
-- nodes, each with its lines joined again, and drops the properties.
pub child_nodes-Layout :
    (text : Text) (nodes : List (List Text))
    → Layout (splitlines text) nodes
    → child_nodes text ≡ map block_of nodes
unfolding child_nodes
child_nodes-Layout text nodes layout = collect-Layout layout
