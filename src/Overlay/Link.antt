-- ===== src/Overlay/Link.antt =====
-- `link_dma_client` of flows/embedded/overlay.py.
pub mod Connect
pub mod Outcome
pub mod Sorting
pub mod Property
pub mod Clean
pub mod ReadBack
use zynq_rtl_flow.Base.{
  ℕ, List, [], ◌∷◌, ◌++◌, map, Option, none, some, Bool, leb, length, Result, ok, err, exit,
  index_error, ◌>>=◌, if◌then◌else◌,
}
use zynq_rtl_flow.Str.{
  Text, codes, is_space, is_empty, text_eq, splitlines, join, contains, replace_once, decimal,
}
use zynq_rtl_flow.Re
use zynq_rtl_flow.Overlay.Nodes.{split_node, property_value, value_or_empty}
use zynq_rtl_flow.Overlay.Interrupts.{DmaChannel, dma_channels, channels_in, in_quotes}

-- `'"xlnx,axi-dma' in (property_value(b, "compatible") or "")`
unfoldable pub is_dma : Text → Bool
unfolding contains property_value
is_dma b =
    contains (b'"' ∷ codes "xlnx,axi-dma") (value_or_empty (property_value b (codes "compatible")))

-- `(property_value(b, "xlnx,ip-name") or "") == '"%s"' % stream_client_ip`
unfoldable pub is_client : Text → Text → Bool
unfolding text_eq property_value
is_client ip b = text_eq (value_or_empty (property_value b (codes "xlnx,ip-name"))) (in_quotes ip)

-- `[b for b in nodes if test(b)]`
unfoldable pub select : (Text → Bool) → List Text → List Text
select test [] = []
select test (b ∷ nodes) = let rest = select test nodes in if test b then b ∷ rest else rest

-- `labelled`
unfoldable pub labelled : Text → Option Text
unfolding Re.label
labelled block = elim (Re.label block) [ none ↦ none | some (name, _) ↦ some name ]

-- the channels of the children, in order: the generator in `sorted(...)`
unfoldable pub channels_of : List Text → List DmaChannel
unfolding channels_in property_value
channels_of [] = []
channels_of (child ∷ children) =
    channels_in (value_or_empty (property_value child (codes "compatible"))) dma_channels
    ++ channels_of children

-- a stable sort by `cell`
unfoldable pub insert_channel : DmaChannel → List DmaChannel → List DmaChannel
insert_channel c [] = c ∷ []
insert_channel c (x ∷ xs) = if leb c.cell x.cell then c ∷ x ∷ xs else x ∷ insert_channel c xs

unfoldable pub sort_channels : List DmaChannel → List DmaChannel
unfolding insert_channel
sort_channels [] = []
sort_channels (c ∷ cs) = insert_channel c (sort_channels cs)

-- `re.match(r"(\s*)", line).group(1)`
unfoldable pub leading_space : Text → Text
unfolding is_space
leading_space [] = []
leading_space (c ∷ cs) = let rest = leading_space cs in if is_space c then c ∷ rest else []

-- the indentation of `client.splitlines()[1]`
unfoldable pub indent_of : Text → Result Text
unfolding splitlines leading_space
indent_of client = elim (splitlines client) [
  | [] ↦ err index_error
  | _ ∷ lines ↦ elim lines [ [] ↦ err index_error | line ∷ _ ↦ ok (leading_space line) ]
]

abbrev pub reference : Text → DmaChannel → Text
reference label c = codes "<&" ++ label ++ codes " " ++ decimal c.cell ++ codes ">"

-- what `{` of the client becomes
unfoldable pub link_text : Text → Text → List DmaChannel → Text
unfolding join decimal
link_text indent label channels =
    codes "{\n"
    ++ indent
    ++ codes "dmas = "
    ++ join (codes ", ") (map (reference label) channels)
    ++ codes ";\n"
    ++ indent
    ++ codes "dma-names = "
    ++ join (codes ", ") (map (λ c. in_quotes c.name) channels)
    ++ codes ";"

unfoldable pub linked : Text → Text → Text → List DmaChannel → Text
unfolding replace_once link_text
linked client indent label channels =
    replace_once (codes "{") (link_text indent label channels) client

unfoldable pub wrong_count : Text → ℕ → ℕ → Text
unfolding decimal
wrong_count ip dmas clients =
    codes "expected one AXI DMA and one "
    ++ ip
    ++ codes " to connect the stream between; found "
    ++ decimal dmas
    ++ codes " and "
    ++ decimal clients

abbrev pub no_label : Text
no_label = codes "the AXI DMA node carries no label to reference it by"

abbrev pub no_channel : Text
no_channel = codes "the AXI DMA node carries no channel sub-node to connect"

-- the text of the client with the link, for the one DMA node and the one client
unfoldable pub connect : Text → Text → Result Text
unfolding labelled split_node channels_of sort_channels is_empty indent_of linked
connect dma client = elim (labelled dma) [
  | none ↦ err (exit no_label)
  | some label ↦ split_node dma >>= λ node.
      let channels = sort_channels (channels_of node.1) in
      if is_empty channels
      then err (exit no_channel)
      else (indent_of client >>= λ indent. ok (linked client indent label channels))
]

-- `[new if b is client else b for b in nodes]`: the client is the one node that the test selects
unfoldable pub replace_client : Text → Text → List Text → List Text
unfolding is_client
replace_client ip new [] = []
replace_client ip new (b ∷ nodes) =
    (if is_client ip b then new else b) ∷ replace_client ip new nodes

-- on the lists `dmas` and `clients`
unfoldable pub link_selected : Text → List Text → List Text → List Text → Result (List Text)
unfolding connect replace_client wrong_count
link_selected ip nodes [] [] = ok nodes
link_selected ip nodes (dma ∷ []) (client ∷ []) =
    connect dma client >>= λ new. ok (replace_client ip new nodes)
link_selected ip nodes dmas clients = err (exit (wrong_count ip (length dmas) (length clients)))

unfoldable pub link_dma_client : Text → List Text → Result (List Text)
unfolding select is_dma is_client link_selected
link_dma_client ip nodes =
    link_selected ip nodes (select is_dma nodes) (select (is_client ip) nodes)
