-- ===== src/Tests/Sources.antt =====
-- The source list of a top, from a shell that prints it.
use zynq_rtl_flow.Base.{
  List, [], ◌∷◌, ◌++◌, map, All, Bool, true, false, Bool-cases, inl, inr, ◌≡◌, refl, sym, ap, ◌∙◌,
  ok, if◌then◌else◌,
}
use zynq_rtl_flow.Str.{Text, codes, starts_with, is_space, is_empty}
use zynq_rtl_flow.Sources.{Completed, parts_of, sources_for}
use zynq_rtl_flow.Sources.Listed.{printed, IsWord, sources_for-printed}

abbrev root : List Text
root = codes "opt" ∷ codes "flow" ∷ []

abbrev names : List Text
names = codes "rtl/sparse_cnn_pkg.sv" ∷ codes "rtl/sparse_mac_pe.sv" ∷ []

abbrev shell : List Text → List Text → Completed
shell _ _ = record { returncode = 0; stdout = printed names }

spaceless : Text → Bool
unfolding is_space
spaceless [] = true
spaceless (c ∷ cs) = let rest = spaceless cs in if is_space c then false else rest

spaceless→All : (name : Text) → spaceless name ≡ true → All (λ c. is_space c ≡ false) name
unfolding spaceless
spaceless→All [] h = tt
spaceless→All (c ∷ cs) h = elim (Bool-cases (is_space c)) [
  | inl space ↦ absurd (contradiction (sym (ap (λ b. if b then false else spaceless cs) space) ∙ h))
  | inr free ↦ (free, spaceless→All cs (sym (ap (λ b. if b then false else spaceless cs) free) ∙ h))
]
  where
    contradiction : false ≡ true → ⊥
    contradiction e = cc

names-IsWord : All IsWord names
unfolding spaceless is_empty
names-IsWord = (
  (refl, spaceless→All (codes "rtl/sparse_cnn_pkg.sv") refl),
  ((refl, spaceless→All (codes "rtl/sparse_mac_pe.sv") refl), tt),
)

listed :
    sources_for shell root (codes "sparse_mac_pe")
    ≡ ok (
        (codes "opt" ∷ codes "flow" ∷ codes "rtl" ∷ codes "sparse_cnn_pkg.sv" ∷ [])
        ∷ (codes "opt" ∷ codes "flow" ∷ codes "rtl" ∷ codes "sparse_mac_pe.sv" ∷ [])
        ∷ [])
unfolding sources_for printed
listed = refl

sources_for-printed_example :
    sources_for shell root (codes "sparse_mac_pe") ≡ ok (map (λ name. root ++ parts_of name) names)
unfolding starts_with
sources_for-printed_example =
    sources_for-printed shell root (codes "sparse_mac_pe") names names-IsWord (refl, (refl, tt))
      refl
