-- ===== src/Overlay/Main.antt =====
-- The script of flows/embedded/overlay.py: from the text of pl.dtsi to the text of the overlay.
pub mod Resolved
pub mod Rejected
use zynq_rtl_flow.Base.{
  List, [], ◌∷◌, ◌++◌, map, Bool, true, false, ◌&&◌, ◌||◌, ◌==◌, ltb, Result, ok, err, exit, ◌>>=◌,
  if◌then◌else◌,
}
use zynq_rtl_flow.Str.{Text, codes, is_empty, text_eq, join, contains, replace, before}
use zynq_rtl_flow.Re.{labels, references}
use zynq_rtl_flow.Overlay.Nodes.{node_body, child_nodes}
use zynq_rtl_flow.Overlay.Interrupts.{align_channel_interrupts, heading}
use zynq_rtl_flow.Overlay.Link.{link_dma_client}

-- `RESOLVABLE`
abbrev pub resolvable : List Text
resolvable =
    codes "amba" ∷ codes "fpga_full" ∷ codes "gic" ∷ codes "zynqmp_clk" ∷ codes "zynqmp_reset" ∷ []

-- `"@" in block.split("{")[0]`
unfoldable pub is_addressable : Text → Bool
unfolding contains before
is_addressable block = contains (codes "@") (before b'{' block)

unfoldable pub any_addressable : List Text → Bool
unfolding is_addressable
any_addressable [] = false
any_addressable (b ∷ nodes) = is_addressable b || any_addressable nodes

unfoldable pub to_gic : Text → Text
unfolding replace
to_gic = replace (codes "<&imux>") (codes "<&gic>")

unfoldable pub align_all : List Text → Result (List Text)
unfolding align_channel_interrupts
align_all [] = ok []
align_all (block ∷ blocks) =
    align_channel_interrupts block >>= λ b. align_all blocks >>= λ rest. ok (b ∷ rest)

-- what `f` finds in the blocks, in order
unfoldable pub found : (Text → List Text) → List Text → List Text
found f [] = []
found f (block ∷ blocks) = f block ++ found f blocks

unfoldable pub member : Text → List Text → Bool
unfolding text_eq
member x [] = false
member x (y ∷ ys) = text_eq x y || member x ys

-- the order of Python's strings
unfoldable pub text_lt : Text → Text → Bool
text_lt [] [] = false
text_lt [] (_ ∷ _) = true
text_lt (_ ∷ _) [] = false
text_lt (x ∷ xs) (y ∷ ys) = ltb x y || (x == y && text_lt xs ys)

-- a set as the sorted list of its members
unfoldable pub add_sorted : Text → List Text → List Text
unfolding text_eq text_lt
add_sorted x [] = x ∷ []
add_sorted x (y ∷ ys) =
    if text_eq x y then y ∷ ys else if text_lt x y then x ∷ y ∷ ys else y ∷ add_sorted x ys

-- `sorted(set(names) - RESOLVABLE - defined)`
unfoldable pub missing_from : List Text → List Text → List Text
unfolding member add_sorted
missing_from defined [] = []
missing_from defined (name ∷ names) =
    let rest = missing_from defined names in
    if member name resolvable || member name defined then rest else add_sorted name rest

unfoldable pub unresolved : List Text → List Text
unfolding missing_from found labels references
unresolved nodes = missing_from (found labels nodes) (found references nodes)

abbrev pub no_addressable : Text
no_addressable = codes "no addressable nodes under amba_pl — check what the generator emitted"

unfoldable pub rejected : List Text → Text
unfolding join
rejected names =
    codes "the generated tree references labels the board's device tree does not\n"
    ++ codes "export, so the overlay would be rejected at load: "
    ++ join (codes ", ") names

-- the nodes under amba_pl, aligned and linked
unfoldable pub linked_nodes : Text → Text → Result (List Text)
unfolding node_body child_nodes any_addressable to_gic align_all link_dma_client
linked_nodes ip body = do
  inner ← node_body body (codes "amba_pl")
  aligned ←
      (if any_addressable (child_nodes inner)
        then align_all (map to_gic (child_nodes inner))
        else err (exit no_addressable))
  link_dma_client ip aligned

-- the nodes, unless they reference a label that does not resolve
unfoldable pub resolve : List Text → Result (List Text)
unfolding unresolved rejected is_empty
resolve nodes =
    if is_empty (unresolved nodes) then ok nodes else err (exit (rejected (unresolved nodes)))

-- the nodes that go into the overlay, or why there is none
unfoldable pub overlay_nodes : Text → Text → Result (List Text)
unfolding linked_nodes resolve
overlay_nodes ip body = linked_nodes ip body >>= resolve

-- what the script writes to `dst`
unfoldable pub render : Text → List Text → Text
unfolding join
render firmware nodes =
    codes "/dts-v1/;\n/plugin/;\n\n"
    ++ codes "&fpga_full {\n\tfirmware-name = \""
    ++ firmware
    ++ codes "\";\n};\n\n"
    ++ codes "&amba {\n\t#address-cells = <2>;\n\t#size-cells = <2>;\n\n"
    ++ join (codes "\n\n") nodes
    ++ codes "\n};\n"

-- what it prints
unfoldable pub report : Text → List Text → List Text
unfolding heading
report dst nodes =
    (codes "overlay source: " ++ dst) ∷ map (λ b. codes "  node: " ++ heading b) nodes

unfoldable pub main : Text → Text → Text → Text → Result (Text × List Text)
unfolding overlay_nodes render report
main dst firmware ip body =
    overlay_nodes ip body >>= λ nodes. ok (render firmware nodes, report dst nodes)
