-- ===== src/Overlay/Link/Sorting.antt =====
-- The channels of the link stand in the order of their cells, and none is lost or made up.
use mathlib.Core.List.{Perm}
use mathlib.Core.List.Perm as Perms
use zynq_rtl_flow.Base.{List, [], ◌∷◌, leb, ◌≤◌, arith, Bool-cases, inl, inr, All, leb→le}
use zynq_rtl_flow.Overlay.Interrupts.{DmaChannel}
use zynq_rtl_flow.Overlay.Link.{insert_channel, sort_channels}

-- Each cell is at most those behind it.
abbrev pub InOrder : List DmaChannel → Type 0
InOrder [] = Unit
InOrder (c ∷ cs) = All (λ x. c.cell ≤ x.cell) cs × InOrder cs

All-above :
    (c d : DmaChannel) (cs : List DmaChannel)
    → c.cell ≤ d.cell
    → All (λ x. d.cell ≤ x.cell) cs
    → All (λ x. c.cell ≤ x.cell) cs
All-above c d [] h a = tt
All-above c d (x ∷ cs) h a = (omega (arith, a.0), All-above c d cs h a.1)

insert_channel-All :
    (P : DmaChannel → Type 0) (c : DmaChannel) (cs : List DmaChannel)
    → P c
    → All P cs
    → All P (insert_channel c cs)
unfolding insert_channel
insert_channel-All P c [] p h = (p, tt)
insert_channel-All P c (x ∷ cs) p h = elim (Bool-cases (leb c.cell x.cell)) [
  | inl e ↦ rw e (p, h)
  | inr e ↦ rw e (h.0, insert_channel-All P c cs p h.1)
]

insert_channel-InOrder :
    (c : DmaChannel) (cs : List DmaChannel) → InOrder cs → InOrder (insert_channel c cs)
unfolding insert_channel
insert_channel-InOrder c [] h = (tt, tt)
insert_channel-InOrder c (x ∷ cs) h = elim (Bool-cases (leb c.cell x.cell)) [
  | inl e ↦ let le = leb→le c.cell x.cell e in rw e ((le, All-above c x cs le h.0), h)
  | inr e ↦ rw e (
    insert_channel-All (λ y. x.cell ≤ y.cell) c cs (ground arith) h.0,
    insert_channel-InOrder c cs h.1,
  )
]

insert_channel-Perm : (c : DmaChannel) (cs : List DmaChannel) → Perm (insert_channel c cs) (c ∷ cs)
unfolding insert_channel
insert_channel-Perm c [] = Perms.refl (c ∷ [])
insert_channel-Perm c (x ∷ cs) = elim (Bool-cases (leb c.cell x.cell)) [
  | inl e ↦ rw e (Perms.refl (c ∷ x ∷ cs))
  | inr e ↦ rw e (Perms.trans (Perms.cons x (insert_channel-Perm c cs)) (Perms.swap c x cs))
]

-- The sorted channels are the given ones, rearranged so that each cell is at most those behind it.
pub sort_channels_lem :
    (cs : List DmaChannel) → Perm (sort_channels cs) cs × InOrder (sort_channels cs)
unfolding sort_channels
sort_channels_lem [] = (Perms.refl [], tt)
sort_channels_lem (c ∷ cs) =
    let (p, o) = sort_channels_lem cs in
    (
      Perms.trans (insert_channel-Perm c (sort_channels cs)) (Perms.cons c p),
      insert_channel-InOrder c (sort_channels cs) o,
    )
