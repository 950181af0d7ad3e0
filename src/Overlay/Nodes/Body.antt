-- ===== src/Overlay/Nodes/Body.antt =====
-- `node_body` stops at the brace that closes the node: its loop against a grammar of braces.
use zynq_rtl_flow.Base.{
  ℕ, zero, suc, [], ◌∷◌, ◌++◌, append_assoc, append-nil, ◌==◌, ◌≡◌, ◌≢◌, ◌↔◌, refl, sym, ap, ◌∙◌,
  Result, ok, err, index_error, ◌>>=◌, bind-eq-ok, arith, ==_iff, ok-injective, Bool-cases, inl,
  inr, ◌⊎◌,
}
use mathlib.Core.Path.{subst}
use zynq_rtl_flow.Str.{Text}
use zynq_rtl_flow.Overlay.Nodes.{opening, closing, scan}

-- A text whose braces close what they open.
pub data Balanced : Text → Type 0 where
  no_text : Balanced []
  plain : (c : ℕ) (rest : Text) → c ≢ opening → c ≢ closing → Balanced rest → Balanced (c ∷ rest)
  braces :
      (inner rest : Text)
      → Balanced inner
      → Balanced rest
      → Balanced (opening ∷ inner ++ closing ∷ rest)

-- a character in front of a result
unfoldable front : ℕ → Result Text → Result Text
front c r = r >>= λ body. ok (c ∷ body)

-- what precedes the loop's result
abbrev ahead : Text → Result Text → Result Text
ahead [] r = r
ahead (c ∷ cs) r = front c (ahead cs r)

scan-plain :
    (d c : ℕ) (text : Text)
    → c ≢ opening
    → c ≢ closing
    → scan (suc d) (c ∷ text) ≡ front c (scan (suc d) text)
unfolding scan front
scan-plain d c text o k = ground arith

scan-opening :
    (d : ℕ) (text : Text) → scan (suc d) (opening ∷ text) ≡ front opening (scan (suc (suc d)) text)
unfolding scan front
scan-opening d text = ground arith

scan-closing :
    (d : ℕ) (text : Text) → scan (suc (suc d)) (closing ∷ text) ≡ front closing (scan (suc d) text)
unfolding scan front
scan-closing d text = ground arith

ahead-append : (xs ys : Text) (r : Result Text) → ahead (xs ++ ys) r ≡ ahead xs (ahead ys r)
ahead-append [] ys r = refl
ahead-append (x ∷ xs) ys r = rw (ahead-append xs ys r)

-- The loop passes over a text at every depth.
abbrev Passes : Text → Type 0
Passes body = (d : ℕ) (text : Text) → scan (suc d) (body ++ text) ≡ ahead body (scan (suc d) text)

inside-Passes :
    (inner rest : Text)
    → Passes inner
    → Passes rest
    → (d : ℕ) (text : Text)
    → scan (suc (suc d)) (inner ++ closing ∷ (rest ++ text))
      ≡ ahead (inner ++ closing ∷ rest) (scan (suc d) text)
inside-Passes inner rest i r d text =
    i (suc d) (closing ∷ (rest ++ text))
    ∙ rw
        (
          scan-closing d (rest ++ text),
          r d text,
          ahead-append inner (closing ∷ rest) (scan (suc d) text),
        )
        refl

braces-Passes :
    (inner rest : Text) → Passes inner → Passes rest → Passes (opening ∷ inner ++ closing ∷ rest)
braces-Passes inner rest i r d text =
    ap (λ x. scan (suc d) (opening ∷ x)) (append_assoc inner (closing ∷ rest) text)
    ∙ (scan-opening d (inner ++ closing ∷ (rest ++ text))
        ∙ ap (front opening) (inside-Passes inner rest i r d text))

Balanced-Passes : {body : Text} → Balanced body → Passes body
Balanced-Passes no_text d text = refl
Balanced-Passes (plain c rest o k b) d text =
    scan-plain d c (rest ++ text) o k ∙ rw (Balanced-Passes b d text)
Balanced-Passes (braces inner rest i b) d text =
    braces-Passes inner rest (Balanced-Passes i) (Balanced-Passes b) d text

scan-end : (text : Text) → scan 1 (closing ∷ text) ≡ ok []
unfolding scan
scan-end text = refl

front-ok : (c : ℕ) (body : Text) → front c (ok body) ≡ ok (c ∷ body)
unfolding front
front-ok c body = refl

ahead-ok : (xs ys : Text) → ahead xs (ok ys) ≡ ok (xs ++ ys)
ahead-ok [] ys = refl
ahead-ok (x ∷ xs) ys = ap (front x) (ahead-ok xs ys) ∙ front-ok x (xs ++ ys)

-- Balanced texts with `d` closing braces between them.
data Pieces : ℕ → Text → Type 0 where
  last_piece : (b : Text) → Balanced b → Pieces 0 b
  piece :
      (d : ℕ) (b rest : Text) → Balanced b → Pieces d rest → Pieces (suc d) (b ++ closing ∷ rest)

plain-Pieces :
    {d : ℕ} {body : Text} (c : ℕ) → c ≢ opening → c ≢ closing → Pieces d body → Pieces d (c ∷ body)
plain-Pieces c o k (last_piece b h) = last_piece (c ∷ b) (plain c b o k h)
plain-Pieces c o k (piece d b rest h p) = piece d (c ∷ b) rest (plain c b o k h) p

enclose :
    (b : Text) {d : ℕ} {rest : Text}
    → Balanced b
    → Pieces d rest
    → Pieces d (opening ∷ b ++ closing ∷ rest)
enclose b h (last_piece r k) = last_piece (opening ∷ b ++ closing ∷ r) (braces b r h k)
enclose b h (piece d r rest k p) =
    rw (← append_assoc b (closing ∷ r) (closing ∷ rest))
      (piece d (opening ∷ b ++ closing ∷ r) rest (braces b r h k) p)

opening-Pieces : {d : ℕ} {body : Text} → Pieces (suc d) body → Pieces d (opening ∷ body)
opening-Pieces (piece d b rest h p) = enclose b h p

-- what the loop from depth `suc d` has read when it ends in `body`
abbrev Read : ℕ → Text → Text → Type 0
Read d text body = (rest : Text) × (text ≡ body ++ closing ∷ rest) × Pieces d body

-- one character more in front of what was read
Read-plain :
    (d c : ℕ) (text body : Text)
    → c ≢ opening
    → c ≢ closing
    → Read d text body
    → Read d (c ∷ text) (c ∷ body)
Read-plain d c text body o k (rest, e, p) = (rest, ap (◌∷◌ c) e, plain-Pieces c o k p)

Read-opening :
    (d : ℕ) (text body : Text) → Read (suc d) text body → Read d (opening ∷ text) (opening ∷ body)
Read-opening d text body (rest, e, p) = (rest, ap (◌∷◌ opening) e, opening-Pieces p)

Read-closing :
    (d : ℕ) (text body : Text) → Read d text body → Read (suc d) (closing ∷ text) (closing ∷ body)
Read-closing d text body (rest, e, p) = (rest, ap (◌∷◌ closing) e, piece d [] body no_text p)

scan-nil : (d : ℕ) → scan (suc d) [] ≡ err index_error
unfolding scan
scan-nil d = refl

-- the rest of the loop behind one character, which the result begins with
scan-Read-behind :
    (d e c : ℕ) (text body : Text)
    → ((b : Text) → Read d text b → Read e (c ∷ text) (c ∷ b))
    → ((b : Text) → scan (suc d) text ≡ ok b → Read d text b)
    → front c (scan (suc d) text) ≡ ok body
    → Read e (c ∷ text) body
unfolding front
scan-Read-behind d e c text body step ih h =
    let (b, p, q) = bind-eq-ok (scan (suc d) text) (λ b. ok (c ∷ b)) h in
    subst (Read e (c ∷ text)) (ok-injective q) (step b (ih b p))

scan-Read-closing :
    (d : ℕ) (text body : Text)
    → ((e : ℕ) (b : Text) → scan (suc e) text ≡ ok b → Read e text b)
    → scan (suc d) (closing ∷ text) ≡ ok body
    → Read d (closing ∷ text) body
scan-Read-closing zero text body ih h =
    subst (Read 0 (closing ∷ text)) (ok-injective (sym (scan-end text) ∙ h))
      (text, refl, last_piece [] no_text)
scan-Read-closing (suc d) text body ih h =
    scan-Read-behind d (suc d) closing text body (Read-closing d text) (ih d)
      (sym (scan-closing d text) ∙ h)

scan-Read : (d : ℕ) (text body : Text) → scan (suc d) text ≡ ok body → Read d text body
scan-Read d [] body h = absurd (unit (sym (scan-nil d) ∙ h))
  where
    unit : err index_error ≡ ok body → ⊥
    unit e = cc
scan-Read d (c ∷ text) body h = elim (Bool-cases (c == opening)) [
  | inl e ↦ rw ((==_iff c opening).0 e) (
      scan-Read-behind (suc d) d opening text body (Read-opening d text) (scan-Read (suc d) text)
        (sym (scan-opening d text) ∙ (rw ((==_iff c opening).0 e) at h)))
  | inr o ↦ elim (Bool-cases (c == closing)) [
    | inl e ↦ rw ((==_iff c closing).0 e) (
        scan-Read-closing d text body (λ e b. scan-Read e text b)
          (rw ((==_iff c closing).0 e) at h))
    | inr k ↦
        scan-Read-behind d d c text body (λ b. Read-plain d c text b (ground arith) (ground arith))
          (scan-Read d text) (sym (scan-plain d c text (ground arith) (ground arith)) ∙ h)
  ]
]

Pieces-Balanced : {body : Text} → Pieces 0 body → Balanced body
Pieces-Balanced (last_piece b h) = h

scan-closed :
    {body : Text} → Balanced body → (rest : Text) → scan 1 (body ++ closing ∷ rest) ≡ ok body
scan-closed {body} b rest =
    Balanced-Passes b 0 (closing ∷ rest)
    ∙ (ap (ahead body) (scan-end rest) ∙ (ahead-ok body [] ∙ ap ok (append-nil body)))

-- a text that is `body`, with its braces balanced, and then the brace that closes the node
abbrev pub Closes : Text → Text → Type 0
Closes text body = (rest : Text) × (text ≡ body ++ closing ∷ rest) × Balanced body

scan-Closes : (text body : Text) → scan 1 text ≡ ok body → Closes text body
scan-Closes text body h = let (rest, e, p) = scan-Read 0 text body h in (rest, e, Pieces-Balanced p)

-- the two ends of the loop
abbrev Ends : Result Text → Type 0
Ends r = ((body : Text) × (r ≡ ok body)) ⊎ (r ≡ err index_error)

front-Ends : (c : ℕ) (r : Result Text) → Ends r → Ends (front c r)
unfolding front
front-Ends c r (inl (body, e)) = inl (c ∷ body, ap (front c) e)
front-Ends c r (inr e) = inr (ap (front c) e)

scan-Ends : (d : ℕ) (text : Text) → Ends (scan (suc d) text)
scan-Ends d [] = inr (scan-nil d)
scan-Ends d (c ∷ text) = elim (Bool-cases (c == opening)) [
  | inl e ↦
      rw ((==_iff c opening).0 e, scan-opening d text)
        (front-Ends opening (scan (suc (suc d)) text) (scan-Ends (suc d) text))
  | inr o ↦ elim (Bool-cases (c == closing)) [
    | inl e ↦ rw ((==_iff c closing).0 e) (closed d (λ k. scan-Ends k text))
    | inr k ↦
        subst Ends (sym (scan-plain d c text (ground arith) (ground arith)))
          (front-Ends c (scan (suc d) text) (scan-Ends d text))
  ]
]
  where
    closed : (d : ℕ) → ((k : ℕ) → Ends (scan (suc k) text)) → Ends (scan (suc d) (closing ∷ text))
    closed zero ih = inl ([], scan-end text)
    closed (suc k) ih =
        subst Ends (sym (scan-closing k text)) (front-Ends closing (scan (suc k) text) (ih k))

-- The loop of `node_body` ends in `body` exactly when the text is `body`, with its braces balanced,
-- and then the brace that closes the node; on a text of which no beginning is such a `body` it runs
-- off the end with an IndexError.
pub scan_iff :
    (text : Text)
    → ((body : Text) → (scan 1 text ≡ ok body) ↔ Closes text body)
      × (((body : Text) → Closes text body → ⊥) → scan 1 text ≡ err index_error)
scan_iff text = (
  λ body. (scan-Closes text body, λ (rest, e, b). rw e (scan-closed b rest)),
  λ never. elim (scan-Ends 0 text) [
    | inl (body, e) ↦ absurd (never body (scan-Closes text body e))
    | inr e ↦ e
  ],
)
