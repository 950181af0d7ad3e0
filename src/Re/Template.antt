-- ===== src/Re/Template.antt =====
-- The replacement of `re.sub`, for a pattern without groups: Python's `re` reads it as a template
-- before it looks for a match. A backslash begins an escape, read as by Python 3.12.
use zynq_rtl_flow.Base.{
  ℕ, zero, suc, ◌+◌, ◌*◌, ◌-◌, List, [], ◌∷◌, ◌++◌, map, Option, none, some, Bool, true, false,
  ◌||◌, ◌&&◌, ◌==◌, leb, length, Result, ok, err, re_error, index_error, ◌>>=◌, if◌then◌else◌, ◌≡◌,
  refl, ap, ◌∙◌, All, take, drop,
}
use zynq_rtl_flow.Str.{Text, is_empty, within}
use zynq_rtl_flow.Re.{is_name_start, is_word, cut, search_assignment}

-- a piece of a template: a character, or a reference to the whole match
pub data Piece : Type 0 where
  char : ℕ → Piece
  group_zero : Piece

abbrev every : (ℕ → Bool) → Text → Bool
every test [] = true
every test (c ∷ cs) = test c && every test cs

-- `\a`, `\b`, `\f`, `\n`, `\r`, `\t`, `\v` and `\\`
unfoldable pub control : ℕ → Option ℕ
control c =
    if c == b'a'
    then some 7
    else if c == b'b'
    then some 8
    else if c == b'f'
    then some 12
    else if c == b'n'
    then some 10
    else if c == b'r'
    then some 13
    else if c == b't'
    then some 9
    else if c == b'v'
    then some 11
    else if c == b'\\'
    then some b'\\'
    else none

-- Each of the following gives the pieces of an escape and the number of characters that it takes
-- behind the backslash.

-- a letter without a meaning is refused, any other character keeps its backslash
unfoldable pub simple_escape : ℕ → Result (List Piece × ℕ)
unfolding control
simple_escape c = elim (control c) [
  | some d ↦ ok (char d ∷ [], 1)
  | none ↦
      if within b'a' b'z' c || within b'A' b'Z' c
      then err re_error
      else ok (char b'\\' ∷ char c ∷ [], 1)
]

abbrev is_identifier : Text → Bool
is_identifier [] = false
is_identifier (c ∷ cs) = is_name_start c && every is_word cs

abbrev is_octal : ℕ → Bool
is_octal = within b'0' b'7'

-- `\0` and up to two octal digits more
unfoldable pub zero_escape : Text → List Piece × ℕ
zero_escape [] = (char 0 ∷ [], 1)
zero_escape (d ∷ []) = if is_octal d then (char (d - b'0') ∷ [], 2) else (char 0 ∷ [], 1)
zero_escape (d ∷ e ∷ _) =
    if is_octal d
    then (if is_octal e
        then (char (8 * (d - b'0') + (e - b'0')) ∷ [], 3)
        else (char (d - b'0') ∷ [], 2))
    else (char 0 ∷ [], 1)

-- another digit: three octal digits are a character, all else is a group that the pattern lacks
unfoldable pub digit_escape : ℕ → Text → Result (List Piece × ℕ)
digit_escape c (d ∷ e ∷ _) =
    let value = 64 * (c - b'0') + (8 * (d - b'0') + (e - b'0')) in
    if is_octal c && (is_octal d && (is_octal e && leb value 255))
    then ok (char value ∷ [], 3)
    else err re_error
digit_escape c _ = err re_error

-- `\g<name>`
unfoldable pub group_escape : Text → Result (List Piece × ℕ)
unfolding cut is_empty is_name_start is_word
group_escape [] = err re_error
group_escape (c ∷ cs) = elim (c == b'<') [
  | false ↦ err re_error
  | true ↦ elim (cut b'>' cs) [
    | none ↦ err re_error
    | some (name, _) ↦
        if is_empty name
        then err re_error
        else if every (within b'0' b'9') name
        then (if every (λ d. d == b'0') name
            then ok (group_zero ∷ [], length name + 3)
            else err re_error)
        else if is_identifier name
        then err index_error
        else err re_error
  ]
]

unfoldable pub escape : Text → Result (List Piece × ℕ)
unfolding simple_escape zero_escape digit_escape group_escape
escape [] = err re_error
escape (c ∷ cs) =
    if c == b'g'
    then group_escape cs
    else if c == b'0'
    then ok (zero_escape cs)
    else if within b'1' b'9' c
    then digit_escape c cs
    else simple_escape c

-- with so many characters of the last escape still to be passed over
unfoldable pub template_from : ℕ → Text → Result (List Piece)
unfolding escape
template_from skip [] = ok []
template_from (suc skip) (c ∷ cs) = template_from skip cs
template_from zero (c ∷ cs) = elim (c == b'\\') [
  | true ↦ escape cs >>= λ found. template_from found.1 cs >>= λ pieces. ok (found.0 ++ pieces)
  | false ↦ template_from zero cs >>= λ pieces. ok (char c ∷ pieces)
]

-- the pieces of a template, and what they make of a match
unfoldable pub template : Text → Result (List Piece)
unfolding template_from
template = template_from zero

unfoldable pub expand : Text → List Piece → Text
expand whole [] = []
expand whole (char c ∷ pieces) = c ∷ expand whole pieces
expand whole (group_zero ∷ pieces) = whole ++ expand whole pieces

-- what of the text stands between what is in front of a match and what is behind it
abbrev pub between : Text → Text → Text → Text
between x rest text = drop (length x) (take (length text - length rest) text)

-- `re.sub(pattern, new, text, count=1)` for the pattern `\bNAME\s*=\s*[^;]*;`
unfoldable pub sub_assignment : Text → Text → Text → Result Text
unfolding search_assignment template expand
sub_assignment name new text = template new >>= λ pieces. ok (elim (search_assignment name text) [
  | none ↦ text
  | some (x, _, rest) ↦ x ++ expand (between x rest text) pieces ++ rest
])

-- no backslash is in the text
abbrev pub NoEscape : Text → Type 0
NoEscape = All (λ c. (c == b'\\') ≡ false)

-- A text without a backslash is the template of itself.
pub template-plain : (text : Text) → NoEscape text → template text ≡ ok (map char text)
unfolding template template_from
template-plain [] plain = refl
template-plain (c ∷ cs) (other, plain) =
    ap
      (λ b. elim b as (λ _. Result (List Piece)) [
        | true ↦
            escape cs >>= λ found. template_from found.1 cs >>= λ pieces. ok (found.0 ++ pieces)
        | false ↦ template_from zero cs >>= λ pieces. ok (char c ∷ pieces)
      ])
      other
    ∙ ap (λ r. r >>= λ pieces. ok (char c ∷ pieces)) (template-plain cs plain)

pub expand-char : (whole text : Text) → expand whole (map char text) ≡ text
unfolding expand
expand-char whole [] = refl
expand-char whole (c ∷ cs) = ap (◌∷◌ c) (expand-char whole cs)
