-- ===== src/Sources.antt =====
-- tb/rtl_sources.py: the source list of a top, as scripts/rtl_sources.sh prints it.
pub mod Listed
use zynq_rtl_flow.Base.{
  ℕ, List, [], ◌∷◌, ◌++◌, map, Bool, true, false, ◌||◌, ◌==◌, Result, ok, err, process_error,
  if◌then◌else◌,
}
use zynq_rtl_flow.Str.{Text, codes, is_empty, text_eq, starts_with, push, join, split}

-- An absolute path is the list of its components.

-- `text.split("/")`
unfoldable pub slashes : Text → List Text
unfolding push
slashes [] = [] ∷ []
slashes (c ∷ cs) = let rest = slashes cs in if c == b'/' then [] ∷ rest else push c rest

-- what `pathlib` keeps of the components: none that is empty or a dot
unfoldable pub keep_parts : List Text → List Text
unfolding is_empty text_eq
keep_parts [] = []
keep_parts (part ∷ parts) =
    let rest = keep_parts parts in
    if is_empty part || text_eq part (codes ".") then rest else part ∷ rest

unfoldable pub parts_of : Text → List Text
unfolding slashes keep_parts
parts_of text = keep_parts (slashes text)

-- `path / line`: an absolute line replaces the path
unfoldable pub below : List Text → Text → List Text
unfolding starts_with parts_of
below path line = if starts_with (codes "/") line then parts_of line else path ++ parts_of line

-- `str(path)`
unfoldable pub path_text : List Text → Text
unfolding join
path_text path = codes "/" ++ join (codes "/") path

-- SOURCE_LIST
unfoldable pub source_list : List Text → List Text
source_list root = root ++ codes "scripts" ∷ codes "rtl_sources.sh" ∷ []

-- the arguments of bash
unfoldable pub command : List Text → Text → List Text
unfolding source_list path_text
command root top =
    codes "bash"
    ∷ codes "-c"
    ∷ (codes "source \"" ++ path_text (source_list root) ++ codes "\"; rtl_sources_for \"$1\"")
    ∷ codes "_"
    ∷ top
    ∷ []

-- what `subprocess.run` returns, of which the script uses these
pub record Completed : Type 0 where
  pub returncode : ℕ
  pub stdout : Text

-- `run` takes the arguments and the working directory; with `check=True`
unfoldable pub sources_for :
    (List Text → List Text → Completed) → List Text → Text → Result (List (List Text))
unfolding command split below
sources_for run root top =
    let listing = run (command root top) root in
    if listing.returncode == 0
    then ok (map (below root) (split listing.stdout))
    else err process_error
