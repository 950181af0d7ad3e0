-- ===== src/Tests/Overlay.antt =====
-- The theorems on flows/embedded/overlay.py at concrete trees.
use zynq_rtl_flow.Base.{
  map, List, [], ◌∷◌, ◌≡◌, ◌≢◌, ◌⊎◌, ◌↔◌, refl, ok, err, value_error, index_error, arith, Result,
  none,
}
use zynq_rtl_flow.Base.Int.{◌+ℤ◌, pos}
use zynq_rtl_flow.Str.{splitlines, Text, codes}
use zynq_rtl_flow.Re.{quoted}
use zynq_rtl_flow.Overlay.Fixtures.{sparse_tree}
use zynq_rtl_flow.Overlay.Nodes.{scan, split_node, property_value}
use zynq_rtl_flow.Overlay.Nodes.{balance, opens, block_of, child_nodes}
use zynq_rtl_flow.Overlay.Nodes.Children.{
  Layout, property_line, node_lines, inner_line, closing_line, no_lines, child_nodes-Layout,
}
use zynq_rtl_flow.Overlay.Nodes.Body.{Closes, scan_iff}
use zynq_rtl_flow.Overlay.Interrupts.{DmaChannel, specs_of, align_channel_interrupts}
use zynq_rtl_flow.Overlay.Interrupts.Specs.{names_in, align_channel_interrupts-no_cells}
use zynq_rtl_flow.Overlay.Link.{is_dma, is_client, link_dma_client}
use zynq_rtl_flow.Overlay.Link.Outcome.{AllFail, Link, link_dma_client_ok}
use zynq_rtl_flow.Overlay.Main.{main, unresolved}
use zynq_rtl_flow.Overlay.Main.Resolved.{Written, main_resolved}
use zynq_rtl_flow.Overlay.Main.Rejected.{Refusal, resolve_refuses}

scan_iff_example :
    ((body : Text) → (scan 1 (codes "a{b}c}d") ≡ ok body) ↔ Closes (codes "a{b}c}d") body)
    × (((body : Text) → Closes (codes "a{b}c}d") body → ⊥)
        → scan 1 (codes "a{b}c}d") ≡ err index_error)
scan_iff_example = scan_iff (codes "a{b}c}d")

abbrev two_channels : List DmaChannel
two_channels =
    record { interrupt = codes "s2mm_introut"; cell = 1; name = codes "rx" }
    ∷ record { interrupt = codes "mm2s_introut"; cell = 0; name = codes "tx" }
    ∷ []

abbrev six_cells : List Text
six_cells = codes "0" ∷ codes "89" ∷ codes "4" ∷ codes "0" ∷ codes "90" ∷ codes "4" ∷ []

abbrev two_names : List Text
two_names = codes "mm2s_introut" ∷ codes "s2mm_introut" ∷ []

abbrev two_specs : List Text
two_specs = codes "0 89 4" ∷ codes "0 90 4" ∷ []

shared_out : specs_of six_cells two_names ≡ ok two_specs
unfolding specs_of
shared_out = refl

abbrev extended : Text
extended =
    codes "x@0 {\n\tinterrupt-names = \"mm2s_introut\";\n\tinterrupts-extended = <&gic 0 89 4>;\n};"

abbrev extended_own : Text
extended_own =
    codes "\n\tinterrupt-names = \"mm2s_introut\";\n\tinterrupts-extended = <&gic 0 89 4>;\n"

extended_parts : split_node extended ≡ ok (extended_own, [])
unfolding split_node
extended_parts = refl

extended_names : names_in extended_own ≡ codes "mm2s_introut" ∷ []
unfolding property_value quoted
extended_names = refl

extended_none : property_value extended_own (codes "interrupts") ≡ none
unfolding property_value
extended_none = refl

align_channel_interrupts-no_cells_example : align_channel_interrupts extended ≡ err value_error
align_channel_interrupts-no_cells_example =
    align_channel_interrupts-no_cells extended extended_own [] (codes "mm2s_introut") []
      extended_parts extended_names extended_none

abbrev dma_node : Text
dma_node =
    codes
      "d: dma {\n\tcompatible = \"xlnx,axi-dma\";\n\tc {\n\t\tcompatible = \"xlnx,axi-dma-mm2s-channel\";\n\t};\n};"

abbrev client_node : Text
client_node = codes "a {\n\txlnx,ip-name = \"ip\";\n};"

abbrev two_nodes : List Text
two_nodes = dma_node ∷ client_node ∷ []

abbrev nodes_with_link : List Text
nodes_with_link =
    dma_node
    ∷ codes "a {\n\tdmas = <&d 0>;\n\tdma-names = \"tx\";\n\txlnx,ip-name = \"ip\";\n};"
    ∷ []

links : link_dma_client (codes "ip") two_nodes ≡ ok nodes_with_link
unfolding link_dma_client ◌+ℤ◌
links = refl

link_dma_client_ok_example :
    (AllFail is_dma two_nodes
      × AllFail (is_client (codes "ip")) two_nodes
      × (nodes_with_link ≡ two_nodes))
    ⊎ Link (codes "ip") two_nodes nodes_with_link
link_dma_client_ok_example = link_dma_client_ok (codes "ip") two_nodes nodes_with_link links

abbrev stray : List Text
stray = codes "a {\n\tb = <&nowhere>, <&gic>;\n};" ∷ []

stray-unresolved : unresolved stray ≡ codes "nowhere" ∷ []
unfolding unresolved
stray-unresolved = refl

stray_some : unresolved stray ≢ []
stray_some e = ground (arith, stray-unresolved)

resolve_refuses_example : Refusal stray
resolve_refuses_example = resolve_refuses stray stray_some

-- what the script writes for the tree of the sparse accelerator
abbrev written : Result (Text × List Text) → Text × List Text
written (ok out) = out
written (err _) = ([], [])

abbrev overlay : Text × List Text
overlay = written (main (codes "out.dtso") (codes "top.bin") (codes "sparse_cnn_axi") sparse_tree)

writes : main (codes "out.dtso") (codes "top.bin") (codes "sparse_cnn_axi") sparse_tree ≡ ok overlay
unfolding main ◌+ℤ◌
writes = refl

main_resolved_example :
    Written
      (codes "out.dtso")
      (codes "top.bin")
      (codes "sparse_cnn_axi")
      sparse_tree
      (overlay.0)
      (overlay.1)
main_resolved_example =
    main_resolved (codes "out.dtso") (codes "top.bin") (codes "sparse_cnn_axi") sparse_tree overlay
      writes

abbrev body_text : Text
body_text = codes "\tranges;\n\ta {\n\t\tb;\n\t};\n"

abbrev node_of : List Text
node_of = codes "\ta {" ∷ codes "\t\tb;" ∷ codes "\t};" ∷ []

body-Layout : Layout (codes "\tranges;" ∷ node_of) (node_of ∷ [])
unfolding opens balance ◌+ℤ◌
body-Layout = property_line (codes "\tranges;") node_of (node_of ∷ []) refl (
    node_lines (codes "\ta {") (codes "\t\tb;" ∷ codes "\t};" ∷ []) [] [] refl
      (inner_line (pos 1) (codes "\t\tb;") (codes "\t};" ∷ []) one_left
        (closing_line (pos 1) (codes "\t};") refl))
      no_lines)
  where
    one_left : pos 1 ≢ pos 0
    one_left e = ground arith

body_lines : splitlines body_text ≡ codes "\tranges;" ∷ node_of
unfolding splitlines
body_lines = refl

split-Layout : Layout (splitlines body_text) (node_of ∷ [])
split-Layout = rw body_lines body-Layout

child_nodes-Layout_example : child_nodes body_text ≡ map block_of (node_of ∷ [])
child_nodes-Layout_example = child_nodes-Layout body_text (node_of ∷ []) split-Layout
