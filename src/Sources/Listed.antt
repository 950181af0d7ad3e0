-- ===== src/Sources/Listed.antt =====
-- What `sources_for` returns of the names that the list prints, one a line.
use mathlib.Core.Path.{ap₂}
use zynq_rtl_flow.Base.{
  ℕ, List, [], ◌∷◌, ◌++◌, map, append_assoc, append-nil, All, false, ◌≡◌, refl, sym, ap, ◌∙◌, ok,
  err, process_error, if◌then◌else◌, ◌==◌,
}
use zynq_rtl_flow.Str.{Text, codes, starts_with, is_space, is_empty, words_from, split}
use zynq_rtl_flow.Sources.{Completed, command, parts_of, below, sources_for}

-- `printf '%s\n'` of the names
unfoldable pub printed : List Text → Text
printed [] = []
printed (name ∷ names) = name ++ b'\n' ∷ printed names

-- a name without spaces
abbrev pub IsWord : Text → Type 0
IsWord name = (is_empty name ≡ false) × All (λ c. is_space c ≡ false) name

words_from-longer :
    (word : Text) (c : ℕ) (cs : Text)
    → is_space c ≡ false
    → words_from word (c ∷ cs) ≡ words_from (word ++ c ∷ []) cs
unfolding words_from
words_from-longer word c cs h =
    ap
      (λ b.
        if b
        then (if is_empty word then words_from [] cs else word ∷ words_from [] cs)
        else words_from (word ++ c ∷ []) cs)
      h

words_from-ends :
    (word cs : Text)
    → is_empty word ≡ false
    → words_from word (b'\n' ∷ cs) ≡ word ∷ words_from [] cs
unfolding words_from is_space
words_from-ends word cs h = ap (λ b. if b then words_from [] cs else word ∷ words_from [] cs) h

words_from-name :
    (word name cs : Text)
    → All (λ c. is_space c ≡ false) name
    → is_empty (word ++ name) ≡ false
    → words_from word (name ++ b'\n' ∷ cs) ≡ (word ++ name) ∷ words_from [] cs
words_from-name word [] cs h some =
    let same = append-nil word in
    words_from-ends word cs (ap is_empty (sym same) ∙ some)
    ∙ ap (λ w. w ∷ words_from [] cs) (sym same)
words_from-name word (c ∷ name) cs h some =
    let same = append_assoc word (c ∷ []) name in
    words_from-longer word c (name ++ b'\n' ∷ cs) h.0
    ∙ (words_from-name (word ++ c ∷ []) name cs h.1 (ap is_empty same ∙ some)
        ∙ ap (λ w. w ∷ words_from [] cs) same)

-- The words of printed names are the names.
pub split-printed : (names : List Text) → All IsWord names → split (printed names) ≡ names
unfolding split printed words_from is_empty
split-printed [] h = refl
split-printed (name ∷ names) h =
    words_from-name [] name (printed names) h.0.1 h.0.0 ∙ ap (◌∷◌ name) (split-printed names h.1)

-- a name that is no absolute path
abbrev pub IsRelative : Text → Type 0
IsRelative name = starts_with (codes "/") name ≡ false

map-below :
    (root : List Text) (names : List Text)
    → All IsRelative names
    → map (below root) names ≡ map (λ name. root ++ parts_of name) names
unfolding below
map-below root [] h = refl
map-below root (name ∷ names) h =
    ap₂ ◌∷◌ (ap (λ b. if b then parts_of name else root ++ parts_of name) h.0)
      (map-below root names h.1)

-- When the shell prints relative names without spaces, one a line: if it succeeds, the result has for
-- each of them, in order, the components of the root and then those of the name; if it fails, the
-- call raises a CalledProcessError.
pub sources_for-printed :
    (run : List Text → List Text → Completed) (root : List Text) (top : Text) (names : List Text)
    → All IsWord names
    → All IsRelative names
    → (run (command root top) root).stdout ≡ printed names
    → sources_for run root top ≡ (
        if (run (command root top) root).returncode == 0
        then ok (map (λ name. root ++ parts_of name) names)
        else err process_error)
unfolding sources_for
sources_for-printed run root top names h relative out =
    ap (λ x. if (run (command root top) root).returncode == 0 then ok x else err process_error)
      (ap (λ text. map (below root) (split text)) out
        ∙ (ap (map (below root)) (split-printed names h) ∙ map-below root names relative))
