-- ===== src/Str.antt =====
-- The methods of Python's `str` that the scripts call, over a text as the list of its characters'
-- codes. The texts are ASCII: a character's class is that of its ASCII code. A text file is read
-- in universal-newline mode, so a text holds no carriage return as a line break.
pub mod Equal
pub mod Numbers
use Prim.Native.Char.{code}
use Prim.Native.String.{String}
use zynq_rtl_flow.Base.{
  ℕ, zero, suc, ◌+◌, ◌-◌, ◌*◌, ◌/◌, ◌%◌, List, [], ◌∷◌, ◌++◌, length, Option, none, some, Bool,
  true, false, ◌&&◌, ◌||◌, ◌==◌, leb, if◌then◌else◌,
}

abbrev pub Text : Type 0
Text = List ℕ

abbrev pub codes : String → Text
codes String.[] = []
codes (String.◌∷◌ c s) = code c ∷ codes s

abbrev pub within : ℕ → ℕ → ℕ → Bool
within lo hi c = leb lo c && leb c hi

-- `str.isspace`, and `\s` of a pattern
unfoldable pub is_space : ℕ → Bool
is_space c = within 9 13 c || within 28 32 c

-- a line break of `str.splitlines`
unfoldable pub is_break : ℕ → Bool
is_break c = within 10 12 c || within 28 30 c

unfoldable pub is_digit : ℕ → Bool
is_digit c = within b'0' b'9' c

unfoldable pub is_empty {ℓ} : {A : Type ℓ} → List A → Bool
is_empty [] = true
is_empty (_ ∷ _) = false

unfoldable pub text_eq : Text → Text → Bool
text_eq [] [] = true
text_eq (x ∷ xs) (y ∷ ys) = x == y && text_eq xs ys
text_eq _ _ = false

-- the rest of `text` behind the prefix
unfoldable pub strip_prefix : Text → Text → Option Text
strip_prefix [] text = some text
strip_prefix (_ ∷ _) [] = none
strip_prefix (p ∷ ps) (c ∷ cs) = elim (p == c) [ true ↦ strip_prefix ps cs | false ↦ none ]

unfoldable pub starts_with : Text → Text → Bool
unfolding strip_prefix
starts_with p text = elim (strip_prefix p text) [ none ↦ false | some _ ↦ true ]

-- `text.find(needle)`, for a needle that is not empty
unfoldable pub find : Text → Text → Option ℕ
unfolding starts_with
find needle [] = none
find needle (c ∷ cs) = elim (starts_with needle (c ∷ cs)) [
  | true ↦ some 0
  | false ↦ elim (find needle cs) [ none ↦ none | some i ↦ some (suc i) ]
]

-- `text.rfind(chr(b))`
unfoldable pub rfind : ℕ → Text → Option ℕ
rfind b [] = none
rfind b (c ∷ cs) = elim (rfind b cs) [
  | none ↦ if c == b then some 0 else none
  | some i ↦ some (suc i)
]

-- `needle in text`
unfoldable pub contains : Text → Text → Bool
unfolding find
contains needle text = elim (find needle text) [ none ↦ false | some _ ↦ true ]

-- `text.count(chr(b))`
unfoldable pub count : ℕ → Text → ℕ
count b [] = 0
count b (c ∷ cs) = (if c == b then 1 else 0) + count b cs

unfoldable pub lstrip : Text → Text
unfolding is_space
lstrip [] = []
lstrip (c ∷ cs) = let rest = lstrip cs in if is_space c then rest else c ∷ cs

unfoldable pub rstrip : Text → Text
unfolding is_space is_empty
rstrip [] = []
rstrip (c ∷ cs) = let rest = rstrip cs in if is_empty rest && is_space c then [] else c ∷ rest

unfoldable pub strip : Text → Text
unfolding lstrip rstrip
strip text = rstrip (lstrip text)

-- `text.endswith(chr(b))`
unfoldable pub ends_with : ℕ → Text → Bool
ends_with b [] = false
ends_with b (c ∷ []) = c == b
ends_with b (c ∷ d ∷ cs) = ends_with b (d ∷ cs)

unfoldable pub push : ℕ → List Text → List Text
push c [] = (c ∷ []) ∷ []
push c (line ∷ lines) = (c ∷ line) ∷ lines

unfoldable pub splitlines : Text → List Text
unfolding is_break push
splitlines [] = []
splitlines (c ∷ cs) = let rest = splitlines cs in if is_break c then [] ∷ rest else push c rest

unfoldable pub join : Text → List Text → Text
join sep [] = []
join sep (x ∷ []) = x
join sep (x ∷ y ∷ xs) = x ++ sep ++ join sep (y ∷ xs)

-- `text.split()`: the runs of characters that are no space. `word` is the run being read.
unfoldable pub words_from : Text → Text → List Text
unfolding is_space is_empty
words_from word [] = if is_empty word then [] else word ∷ []
words_from word (c ∷ cs) =
    let rest = words_from [] cs in
    let longer = words_from (word ++ c ∷ []) cs in
    if is_space c then (if is_empty word then rest else word ∷ rest) else longer

unfoldable pub split : Text → List Text
unfolding words_from
split = words_from []

-- `text.split(chr(b))[0]`
unfoldable pub before : ℕ → Text → Text
before b [] = []
before b (c ∷ cs) = let rest = before b cs in if c == b then [] else c ∷ rest

-- `text.replace(old, new)`, for an `old` that is not empty; `skip` characters of the occurrence
-- being replaced are still to be passed over
unfoldable pub replace_from : Text → Text → ℕ → Text → Text
unfolding starts_with
replace_from old new skip [] = []
replace_from old new (suc skip) (c ∷ cs) = replace_from old new skip cs
replace_from old new zero (c ∷ cs) = elim (strip_prefix old (c ∷ cs)) [
  | some _ ↦ new ++ replace_from old new (length old - 1) cs
  | none ↦ c ∷ replace_from old new zero cs
]

unfoldable pub replace : Text → Text → Text → Text
unfolding replace_from
replace old new = replace_from old new zero

-- `text.replace(old, new, 1)`
unfoldable pub replace_once : Text → Text → Text → Text
unfolding strip_prefix
replace_once old new [] = []
replace_once old new (c ∷ cs) = elim (strip_prefix old (c ∷ cs)) [
  | some rest ↦ new ++ rest
  | none ↦ c ∷ replace_once old new cs
]

-- `"%d" % n`; the fuel is one more than `n`, which has fewer digits than that
unfoldable pub digits : ℕ → ℕ → Text → Text
digits zero n out = out
digits (suc fuel) n out =
    let more = digits fuel (n / 10) ((b'0' + n % 10) ∷ out) in
    if n / 10 == 0 then (b'0' + n % 10) ∷ out else more

unfoldable pub decimal : ℕ → Text
unfolding digits
decimal n = digits (suc n) n []

-- `int(field)`, for a field of digits
unfoldable pub number : ℕ → Text → ℕ
number n [] = n
number n (c ∷ cs) = number (n * 10 + (c - b'0')) cs

-- `field.isdigit()`
unfoldable pub all_digits : Text → Bool
unfolding is_digit
all_digits [] = true
all_digits (c ∷ cs) = is_digit c && all_digits cs

unfoldable pub isdigit : Text → Bool
unfolding all_digits
isdigit [] = false
isdigit (c ∷ cs) = all_digits (c ∷ cs)
