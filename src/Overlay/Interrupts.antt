-- ===== src/Overlay/Interrupts.antt =====
-- `DMA_CHANNELS`, `interrupt_specs` and `align_channel_interrupts` of flows/embedded/overlay.py.
pub mod Specs
pub mod ReadBack
use zynq_rtl_flow.Base.{
  ℕ, zero, suc, ◌/◌, ◌%◌, List, [], ◌∷◌, ◌++◌, map, Option, none, some, ◌||◌, ◌==◌, length, take,
  drop, Result, ok, err, exit, value_error, ◌>>=◌, if◌then◌else◌,
}
use zynq_rtl_flow.Str.{
  Text, codes, is_empty, text_eq, split, join, strip, contains, replace, before,
}
use zynq_rtl_flow.Re.{quoted}
use zynq_rtl_flow.Re.Template.{sub_assignment}
use zynq_rtl_flow.Overlay.Nodes.{split_node, property_value, value_or_empty}

pub record DmaChannel : Type 0 where
  pub interrupt : Text
  pub cell : ℕ
  pub name : Text

-- in the order of the source's dictionary
abbrev pub dma_channels : List (Text × DmaChannel)
dma_channels =
    (
      codes "xlnx,axi-dma-mm2s-channel",
      record { interrupt = codes "mm2s_introut"; cell = 0; name = codes "tx" },
    )
    ∷ (
      codes "xlnx,axi-dma-s2mm-channel",
      record { interrupt = codes "s2mm_introut"; cell = 1; name = codes "rx" },
    )
    ∷ []

-- `re.sub(r"[<>,]", " ", text)`
abbrev pub unbracket : ℕ → ℕ
unbracket c = if c == b'<' || c == b'>' || c == b',' then b' ' else c

-- `[" ".join(cells[i : i + width]) for i in range(0, len(cells), width)]`, in `rounds` rounds
unfoldable pub chunks : ℕ → ℕ → List Text → List Text
unfolding join
chunks zero width cells = []
chunks (suc rounds) width cells =
    join (b' ' ∷ []) (take width cells) ∷ chunks rounds width (drop width cells)

-- with no cells the width is 0, which `range` refuses as a step
unfoldable pub specs_of : List Text → List Text → Result (List Text)
unfolding chunks is_empty
specs_of cells names =
    if is_empty names
    then ok []
    else if length cells % length names == 0
    then (if length cells / length names == 0
        then err value_error
        else ok (chunks (length names) (length cells / length names) cells))
    else ok []

unfoldable pub interrupt_specs : Text → List Text → Result (List Text)
unfolding specs_of split property_value
interrupt_specs own names =
    specs_of (split (map unbracket (value_or_empty (property_value own (codes "interrupts")))))
      names

-- a dictionary with text keys, and `d[key] = value`
unfoldable pub insert : Text → Text → List (Text × Text) → List (Text × Text)
unfolding text_eq
insert key value [] = (key, value) ∷ []
insert key value ((k, v) ∷ d) =
    if text_eq k key then (key, value) ∷ d else (k, v) ∷ insert key value d

unfoldable pub lookup : Text → List (Text × Text) → Option Text
unfolding text_eq
lookup key [] = none
lookup key ((k, v) ∷ d) = if text_eq k key then some v else lookup key d

-- `dict(zip(names, specs))`
unfoldable pub dict_of : List Text → List Text → List (Text × Text) → List (Text × Text)
unfolding insert
dict_of (n ∷ names) (s ∷ specs) d = dict_of names specs (insert n s d)
dict_of _ _ d = d

abbrev pub in_quotes : Text → Text
in_quotes name = b'"' ∷ (name ++ b'"' ∷ [])

-- the channels of the table whose quoted name is in `compatible`
unfoldable pub channels_in : Text → List (Text × DmaChannel) → List DmaChannel
unfolding contains
channels_in compatible [] = []
channels_in compatible ((name, channel) ∷ table) =
    let rest = channels_in compatible table in
    if contains (in_quotes name) compatible then channel ∷ rest else rest

abbrev pub first {ℓ} : {A : Type ℓ} → List A → Option A
first [] = none
first (x ∷ _) = some x

-- `next((... for c in DMA_CHANNELS if ...), None)`
unfoldable pub wanted : Text → Option Text
unfolding channels_in
wanted compatible = elim (first (channels_in compatible dma_channels)) [
  | none ↦ none
  | some channel ↦ some channel.interrupt
]

-- `block.split("{")[0].strip()`
unfoldable pub heading : Text → Text
unfolding before strip
heading block = strip (before b'{' block)

unfoldable pub missing_interrupt : Text → Text → Text
unfolding heading
missing_interrupt child name =
    heading child
    ++ codes " wants the "
    ++ name
    ++ codes " interrupt and the IP node does not carry one"

-- the channel node with its interrupts set to `spec`
unfoldable pub fix_channel : Text → Text → Result Text
unfolding sub_assignment strip
fix_channel spec child =
    sub_assignment (codes "interrupts") (codes "interrupts = <" ++ strip spec ++ codes ">;") child

-- what one child asks for: nothing, or the specifier of its interrupt
unfoldable pub spec_for : List (Text × Text) → Text → Result (Option Text)
unfolding property_value wanted lookup missing_interrupt
spec_for by_name child = elim (property_value child (codes "compatible")) [
  | none ↦ ok none
  | some compatible ↦ elim (wanted compatible) [
    | none ↦ ok none
    | some name ↦ elim (lookup name by_name) [
      | none ↦ err (exit (missing_interrupt child name))
      | some spec ↦ ok (some spec)
    ]
  ]
]

unfoldable pub apply_spec : Text → Option Text → Text → Result Text
unfolding replace fix_channel
apply_spec child none block = ok block
apply_spec child (some spec) block =
    fix_channel spec child >>= λ fixed. ok (replace child fixed block)

unfoldable pub align_children : List (Text × Text) → List Text → Text → Result Text
unfolding spec_for apply_spec
align_children by_name [] block = ok block
align_children by_name (child ∷ children) block = do
  spec ← spec_for by_name child
  fixed ← apply_spec child spec block
  align_children by_name children fixed

unfoldable pub align_channel_interrupts : Text → Result Text
unfolding split_node property_value quoted interrupt_specs dict_of is_empty align_children
align_channel_interrupts block = do
  node ← split_node block
  let names = quoted (value_or_empty (property_value node.0 (codes "interrupt-names")))
  specs ← interrupt_specs node.0 names
  let by_name = dict_of names specs []
  if is_empty by_name then ok block else align_children by_name node.1 block
