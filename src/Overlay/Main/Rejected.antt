-- ===== src/Overlay/Main/Rejected.antt =====
-- What the script names when it refuses a tree: the unresolved labels, each once, in order.
use zynq_rtl_flow.Base.{
  List, [], ◌∷◌, Bool, true, false, ◌&&◌, ◌||◌, not, ◌≡◌, ◌≢◌, refl, err, exit, arith, Bool-cases,
  inl, inr,
}
use zynq_rtl_flow.Str.{Text, is_empty, text_eq}
use zynq_rtl_flow.Str.Equal.{text_eq→eq}
use zynq_rtl_flow.Re.{labels, references}
use zynq_rtl_flow.Overlay.Main.{
  resolvable, member, text_lt, add_sorted, missing_from, found, unresolved, rejected, resolve,
}

member-add_sorted :
    (x y : Text) (ys : List Text) → member x (add_sorted y ys) ≡ (text_eq x y || member x ys)
unfolding member add_sorted
member-add_sorted x y [] = refl
member-add_sorted x y (z ∷ zs) = ground (arith, member-add_sorted x y zs, text_eq→eq y z)

abbrev resolves : List Text → Text → Bool
resolves defined name = member name resolvable || member name defined

member-missing_from :
    (x : Text) (defined names : List Text)
    → member x (missing_from defined names) ≡ (member x names && not (resolves defined x))
unfolding missing_from member
member-missing_from x defined [] = refl
member-missing_from x defined (name ∷ names) = ground (
  arith,
  member-add_sorted x name (missing_from defined names),
  member-missing_from x defined names,
  text_eq→eq x name,
)

-- Python's order is total: of two different texts one is before the other.
text_lt_total : (x y : Text) → text_eq x y ≡ false → text_lt x y ≡ false → text_lt y x ≡ true
unfolding text_lt text_eq
text_lt_total [] [] e l = ground arith
text_lt_total [] (y ∷ ys) e l = ground arith
text_lt_total (x ∷ xs) [] e l = refl
text_lt_total (x ∷ xs) (y ∷ ys) e l = ground (arith, text_lt_total xs ys)

-- Each text is before the next.
pub data Ascending : List Text → Type 0 where
  none_left : Ascending []
  one_left : (x : Text) → Ascending (x ∷ [])
  before_next :
      (x y : Text) (ys : List Text)
      → text_lt x y ≡ true
      → Ascending (y ∷ ys)
      → Ascending (x ∷ y ∷ ys)

-- A text before `x` and before `z` is before the list with `x` added.
prepend-Ascending :
    (y x z : Text) (zs : List Text)
    → text_lt y x ≡ true
    → text_lt y z ≡ true
    → Ascending (add_sorted x (z ∷ zs))
    → Ascending (y ∷ add_sorted x (z ∷ zs))
unfolding add_sorted
prepend-Ascending y x z zs p q h = elim (Bool-cases (text_eq x z)) [
  | inl e ↦ rw e (before_next y z zs q (rw e at h))
  | inr e ↦ elim (Bool-cases (text_lt x z)) [
    | inl l ↦ rw (e, l) (before_next y x (z ∷ zs) p (rw (e, l) at h))
    | inr l ↦ rw (e, l) (before_next y z (add_sorted x zs) q (rw (e, l) at h))
  ]
]

add_sorted-Ascending : (x : Text) {ys : List Text} → Ascending ys → Ascending (add_sorted x ys)
unfolding add_sorted
add_sorted-Ascending x none_left = one_left x
add_sorted-Ascending x (one_left y) = elim (Bool-cases (text_eq x y)) [
  | inl e ↦ rw e (one_left y)
  | inr e ↦ elim (Bool-cases (text_lt x y)) [
    | inl l ↦ rw (e, l) (before_next x y [] l (one_left y))
    | inr l ↦ rw (e, l) (before_next y x [] (text_lt_total x y e l) (one_left x))
  ]
]
add_sorted-Ascending x (before_next y z zs p rest) = elim (Bool-cases (text_eq x y)) [
  | inl e ↦ rw e (before_next y z zs p rest)
  | inr e ↦ elim (Bool-cases (text_lt x y)) [
    | inl l ↦ rw (e, l) (before_next x y (z ∷ zs) l (before_next y z zs p rest))
    | inr l ↦
        rw (e, l)
          (prepend-Ascending y x z zs (text_lt_total x y e l) p (add_sorted-Ascending x rest))
  ]
]

missing_from-Ascending : (defined names : List Text) → Ascending (missing_from defined names)
unfolding missing_from
missing_from-Ascending defined [] = none_left
missing_from-Ascending defined (name ∷ names) =
    let rest = missing_from-Ascending defined names in
    elim (Bool-cases (resolves defined name)) [
      | inl e ↦ rw e rest
      | inr e ↦ rw e (add_sorted-Ascending name rest)
    ]

-- What the script says of a tree it refuses: its names are exactly the referenced labels that do
-- not resolve, in ascending order.
pub record Refusal (nodes : List Text) : Type 0 where
  pub names : List Text
  pub refused : resolve nodes ≡ err (exit (rejected names))
  pub exactly :
      (x : Text)
      → member x names
        ≡ (member x (found references nodes) && not (resolves (found labels nodes) x))
  pub ascending : Ascending names

resolve-err :
    (nodes : List Text)
    → unresolved nodes ≢ []
    → resolve nodes ≡ err (exit (rejected (unresolved nodes)))
unfolding resolve is_empty
resolve-err nodes h = ground arith

-- A tree with a reference that does not resolve is refused, with a message that names exactly the
-- labels that do not resolve, each once and in Python's order.
pub resolve_refuses : (nodes : List Text) → unresolved nodes ≢ [] → Refusal nodes
unfolding unresolved
resolve_refuses nodes h = record {
  names = unresolved nodes;
  refused = resolve-err nodes h;
  exactly = λ x. member-missing_from x (found labels nodes) (found references nodes);
  ascending = missing_from-Ascending (found labels nodes) (found references nodes);
}
