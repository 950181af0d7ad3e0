-- ===== src/Overlay/Nodes.antt =====
-- `node_body`, `child_nodes`, `split_node` and `property_value` of flows/embedded/overlay.py.
pub mod Body
pub mod Children
use zynq_rtl_flow.Base.{
  ℕ, zero, suc, ◌+◌, ◌-◌, List, [], ◌∷◌, ◌++◌, Option, none, some, Bool, ◌==◌, take, drop, Result,
  ok, err, value_error, index_error, ◌>>=◌, if◌then◌else◌,
}
use zynq_rtl_flow.Base.Int.{ℤ, pos, sub_ℕ, ◌+ℤ◌, ◌==ℤ◌}
use zynq_rtl_flow.Str.{Text, find, rfind, rstrip, ends_with, splitlines, count, join, replace}
use zynq_rtl_flow.Re.{search_assignment}

-- `text.index(needle)`
unfoldable pub index : Text → Text → Result ℕ
unfolding find
index needle text = elim (find needle text) [ none ↦ err value_error | some i ↦ ok i ]

-- `text.rindex("}")`
unfoldable pub rindex : ℕ → Text → Result ℕ
unfolding rfind
rindex b text = elim (rfind b text) [ none ↦ err value_error | some i ↦ ok i ]

abbrev pub opening : ℕ
opening = b'{'

abbrev pub closing : ℕ
closing = b'}'

-- the depth behind a character
abbrev pub level : ℕ → ℕ → ℕ
level depth c = if c == opening then depth + 1 else if c == closing then depth - 1 else depth

-- the `while depth` loop: the text up to the brace that brings the depth to zero
unfoldable pub scan : ℕ → Text → Result Text
scan depth [] = err index_error
scan depth (c ∷ cs) =
    let rest = scan (level depth c) cs in
    if level depth c == 0 then ok [] else (rest >>= λ body. ok (c ∷ body))

unfoldable pub node_body : Text → Text → Result Text
unfolding index scan
node_body text label = do
  start ← index label text
  skip ← index (opening ∷ []) (drop start text)
  scan 1 (drop (suc skip) (drop start text))

-- `line.count("{") - line.count("}")`
unfoldable pub balance : Text → ℤ
unfolding count
balance line = sub_ℕ (count opening line) (count closing line)

-- `line.rstrip().endswith("{")`
unfoldable pub opens : Text → Bool
unfolding rstrip ends_with
opens line = ends_with opening (rstrip line)

-- `"\n".join(buf)`
abbrev pub block_of : List Text → Text
block_of = join (b'\n' ∷ [])

-- the loop, from `depth` and `buf`: the blocks that it appends
unfoldable pub collect : ℤ → List Text → List Text → List Text
unfolding balance opens join
collect depth buf [] = []
collect (pos zero) buf (line ∷ lines) =
    let entered = collect (pos 1) (line ∷ []) lines in
    let passed = collect (pos 0) buf lines in if opens line then entered else passed
collect depth buf (line ∷ lines) =
    let rest = collect (depth +ℤ balance line) (buf ++ line ∷ []) lines in
    if depth +ℤ balance line ==ℤ pos 0 then block_of (buf ++ line ∷ []) ∷ rest else rest

unfoldable pub child_nodes : Text → List Text
unfolding collect splitlines
child_nodes text = collect (pos 0) [] (splitlines text)

-- `text[i:j]`
abbrev pub slice : ℕ → ℕ → Text → Text
slice i j text = take (j - i) (drop i text)

-- `for child in children: own = own.replace(child, "")`
unfoldable pub remove_all : List Text → Text → Text
unfolding replace
remove_all [] own = own
remove_all (child ∷ children) own = remove_all children (replace child [] own)

unfoldable pub split_node : Text → Result (Text × List Text)
unfolding index rindex child_nodes remove_all
split_node block = do
  i ← index (opening ∷ []) block
  j ← rindex closing block
  let body = slice (i + 1) j block
  ok (remove_all (child_nodes body) body, child_nodes body)

unfoldable pub property_value : Text → Text → Option Text
unfolding search_assignment
property_value text name = elim (search_assignment name text) [
  | none ↦ none
  | some (_, value, _) ↦ some value
]

-- `property_value(text, name) or ""`
abbrev pub value_or_empty : Option Text → Text
value_or_empty none = []
value_or_empty (some value) = value
