-- ===== src/Re.antt =====
-- The patterns of Python's `re` that flows/embedded/overlay.py uses. In each of them a run that a
-- `*` takes is followed by something outside the run's class, so the greedy match is the only one
-- and a scanner finds it with no backtracking.
pub mod Assignment
pub mod Substitution
pub mod Skip
pub mod Template
use zynq_rtl_flow.Base.{
  ℕ, zero, suc, ◌-◌, List, [], ◌∷◌, ◌++◌, Option, none, some, Bool, true, false, ◌||◌, not, ◌==◌,
  length, if◌then◌else◌,
}
use zynq_rtl_flow.Str.{Text, within, strip_prefix, lstrip}

-- `[A-Za-z_]`
unfoldable pub is_name_start : ℕ → Bool
is_name_start c = within b'a' b'z' c || within b'A' b'Z' c || c == b'_'

-- `\w`
unfoldable pub is_word : ℕ → Bool
unfolding is_name_start
is_word c = is_name_start c || within b'0' b'9' c

-- `[\w-]`
unfoldable pub is_name_char : ℕ → Bool
unfolding is_word
is_name_char c = is_word c || c == b'-'

-- the text before the first `b` and the text behind it
unfoldable pub cut : ℕ → Text → Option (Text × Text)
cut b [] = none
cut b (c ∷ cs) =
    let later : Option (Text × Text) = elim (cut b cs) [
      | none ↦ none
      | some (x, y) ↦ some (c ∷ x, y)
    ] in
    if c == b then some ([], cs) else later

-- `NAME\s*=\s*([^;]*);` at the start of the text: the group, and the text behind the match
unfoldable pub assignment : Text → Text → Option (Text × Text)
unfolding strip_prefix lstrip cut
assignment name text = elim (strip_prefix name text) [
  | none ↦ none
  | some rest ↦ elim (strip_prefix (b'=' ∷ []) (lstrip rest)) [
    | none ↦ none
    | some value ↦ cut b';' (lstrip value)
  ]
]

-- whether `\b` holds between a character (whether that is a word character) and the text's first
abbrev pub boundary : Bool → ℕ → Bool
boundary true c = not (is_word c)
boundary false c = is_word c

-- the match of `\bNAME\s*=\s*([^;]*);` at this place, behind a character of the class `word`
unfoldable pub match_here : Text → Bool → Text → Option (Text × Text)
unfolding assignment is_word
match_here name word [] = none
match_here name word (c ∷ cs) = elim (boundary word c) [
  | true ↦ assignment name (c ∷ cs)
  | false ↦ none
]

-- `re.search`: the text before the match, its group and the text behind it
unfoldable pub search_from : Text → Bool → Text → Option (Text × Text × Text)
unfolding match_here is_word
search_from name word [] = none
search_from name word (c ∷ cs) = elim (match_here name word (c ∷ cs)) [
  | some (value, rest) ↦ some ([], value, rest)
  | none ↦ elim (search_from name (is_word c) cs) [
    | none ↦ none
    | some (x, value, rest) ↦ some (c ∷ x, value, rest)
  ]
]

unfoldable pub search_assignment : Text → Text → Option (Text × Text × Text)
unfolding search_from
search_assignment name = search_from name false

-- `re.findall(r'"([^"]*)"', text)`; `some word` inside a pair of quotes
unfoldable pub quoted_from : Option Text → Text → List Text
quoted_from pending [] = []
quoted_from none (c ∷ cs) = quoted_from (if c == b'"' then some [] else none) cs
quoted_from (some word) (c ∷ cs) =
    let closed = quoted_from none cs in
    let inside = quoted_from (some (word ++ c ∷ [])) cs in
    if c == b'"' then word ∷ closed else inside

unfoldable pub quoted : Text → List Text
unfolding quoted_from
quoted = quoted_from none

-- the longest prefix of name characters
unfoldable pub name_run : Text → Text × Text
unfolding is_name_char
name_run [] = ([], [])
name_run (c ∷ cs) =
    let (run, rest) = name_run cs in if is_name_char c then (c ∷ run, rest) else ([], c ∷ cs)

-- `[A-Za-z_][\w-]*` at the start of the text
unfoldable pub identifier : Text → Option (Text × Text)
unfolding is_name_start name_run
identifier [] = none
identifier (c ∷ cs) =
    if is_name_start c then (let (run, rest) = name_run cs in some (c ∷ run, rest)) else none

-- `\s*([A-Za-z_][\w-]*)\s*:` at the start of the text: the group and the text behind the match
unfoldable pub label : Text → Option (Text × Text)
unfolding lstrip identifier strip_prefix
label text = elim (identifier (lstrip text)) [
  | none ↦ none
  | some (name, rest) ↦ elim (strip_prefix (b':' ∷ []) (lstrip rest)) [
    | none ↦ none
    | some behind ↦ some (name, behind)
  ]
]

-- `re.findall(r"^\s*([A-Za-z_][\w-]*)\s*:", text, re.MULTILINE)`: `start` at the start of a line,
-- and `skip` characters of the last match still to be passed over
unfoldable pub labels_from : Bool → ℕ → Text → List Text
unfolding label
labels_from start skip [] = []
labels_from start (suc skip) (c ∷ cs) = labels_from (c == b'\n') skip cs
labels_from false zero (c ∷ cs) = labels_from (c == b'\n') zero cs
labels_from true zero (c ∷ cs) = elim (label (c ∷ cs)) [
  | none ↦ labels_from (c == b'\n') zero cs
  | some (name, rest) ↦ name ∷ labels_from (c == b'\n') (length cs - length rest) cs
]

unfoldable pub labels : Text → List Text
unfolding labels_from
labels = labels_from true zero

-- `re.findall(r"&([A-Za-z_][\w-]*)", text)`: a name holds no `&`, so nothing is passed over
unfoldable pub references : Text → List Text
unfolding identifier
references [] = []
references (c ∷ cs) =
    let rest = references cs in
    if c == b'&' then elim (identifier cs) [ none ↦ rest | some (name, _) ↦ name ∷ rest ] else rest
