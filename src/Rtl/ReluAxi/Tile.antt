-- ===== src/Rtl/ReluAxi/Tile.antt =====
-- A tile through rtl/relu_axi.sv, from rest to rest: what leaves on the master stream, and what STATUS
-- and COUNT report of it.
use mathlib.Core.Path.{ap₂}
use zynq_rtl_flow.Base.{
  when, ℕ, ◌+◌, ◌%◌, ◌^◌, List, [], ◌∷◌, ◌++◌, map, length, true, false, ◌≡◌, sym, ap, ◌∙◌, arith,
  and-true,
}
use zynq_rtl_flow.Rtl.ReluUnit.{relu_unit}
use zynq_rtl_flow.Rtl.ReluAxi.{
  ReluPorts, ReluAxi, relu_edge, in_fire, out_fire, tile_done, next_stage,
}
use zynq_rtl_flow.Rtl.ReluAxi.Stream.{
  OutBeat, InBeat, Flow, activate, front, inside, held, handed, edge-stage, Flow-queue,
}
use zynq_rtl_flow.Rtl.ReluAxi.Accounting.{NoLast, AtRest, rest-Counts, done-account, one_if}

AtRest-held : (w : ReluAxi) → AtRest w → held w ≡ []
AtRest-held w h = ap (λ b. when b (front w.stage)) h.free

-- The register is empty behind an edge that hands a beat over and takes none.
emptied :
    (p : ReluPorts) (v : ReluAxi)
    → p.aresetn ≡ true
    → out_fire p v ≡ true
    → in_fire p v ≡ false
    → (relu_edge p v).stage.out_valid_q ≡ false
unfolding next_stage
emptied p v r o i =
    ap (λ s. s.out_valid_q) (edge-stage p v r)
    ∙ ap₂ (λ x y. (next_stage x y p.tlast (relu_unit p.tdata v.slope_reg) v.stage).out_valid_q) i o

done-out_fire : (p : ReluPorts) (v : ReluAxi) → tile_done p v ≡ true → out_fire p v ≡ true
done-out_fire p v d = ground arith

-- what is inside when the last beat leaves is that beat
done-handed : (p : ReluPorts) (v : ReluAxi) → tile_done p v ≡ true → handed p v ≡ held v
done-handed p v d =
    let out = done-out_fire p v d in
    ap (λ b. when b (front v.stage)) out
    ∙ sym (ap (λ b. when b (front v.stage)) (and-true v.stage.out_valid_q p.m_tready out).0)

-- what has left behind the last beat is what was taken
pub Flow-handed :
    (p : ReluPorts) (w v : ReluAxi) (ins : List InBeat) (outs : List OutBeat)
    → AtRest w
    → Flow w ins outs v
    → tile_done p v ≡ true
    → outs ++ handed p v ≡ map activate ins
Flow-handed p w v ins outs rest flow d =
    ap (λ x. outs ++ x) (done-handed p v d)
    ∙ (sym (Flow-queue flow).0 ∙ ap (λ x. x ++ map activate ins) (AtRest-held w rest))

plain : (n : ℕ) → (n + 0) % 2 ^ 16 ≡ n % 2 ^ 16
plain n = omega arith

-- A beat taken is what is inside behind the edge.
filled :
    (p : ReluPorts) (v : ReluAxi)
    → p.aresetn ≡ true
    → in_fire p v ≡ true
    → held (relu_edge p v) ≡ (relu_unit p.tdata v.slope_reg, p.tlast) ∷ []
unfolding next_stage
filled p v r i =
    let y = relu_unit p.tdata v.slope_reg in
    ap inside (edge-stage p v r ∙ ap (λ b. next_stage b (out_fire p v) p.tlast y v.stage) i)

-- From rest, with any stalls, up to and including the edge that hands the last beat over while no
-- beat is offered: the beats handed over are the activated beats taken, in order, TLAST travelling
-- with each; the pipeline is at rest again, DONE is set, and COUNT is the number of beats of the tile
-- modulo 65536.
pub tile_lem :
    (p : ReluPorts) (w v : ReluAxi) (ins : List InBeat) (outs : List OutBeat)
    → AtRest w
    → Flow w ins outs v
    → NoLast outs
    → p.aresetn ≡ true
    → tile_done p v ≡ true
    → in_fire p v ≡ false
    → (outs ++ handed p v ≡ map activate ins)
      × AtRest (relu_edge p v)
      × ((relu_edge p v).account.done_q ≡ true)
      × ((relu_edge p v).account.count_q ≡ length ins % 2 ^ 16)
tile_lem p w v ins outs rest flow none r d i =
    let counts = rest-Counts rest flow none in
    let (busy, done, beats, count) = done-account p v (length ins) r d counts in
    (
      Flow-handed p w v ins outs rest flow d,
      record { free = emptied p v r (done-out_fire p v d) i; no_beats = beats; not_busy = busy },
      done,
      count ∙ ap (λ b. (length ins + one_if b) % 2 ^ 16) i ∙ plain (length ins),
    )

-- If a beat of the next tile is taken in the cycle that hands the last beat over, COUNT is one more
-- than the beats of the tile, and though that beat is then inside, BUSY is low and DONE set, and the
-- count of the next tile starts without it.
pub tile_overlap :
    (p : ReluPorts) (w v : ReluAxi) (ins : List InBeat) (outs : List OutBeat)
    → AtRest w
    → Flow w ins outs v
    → NoLast outs
    → p.aresetn ≡ true
    → tile_done p v ≡ true
    → in_fire p v ≡ true
    → let u = relu_edge p v in
      (outs ++ handed p v ≡ map activate ins)
      × (held u ≡ (relu_unit p.tdata v.slope_reg, p.tlast) ∷ [])
      × (u.account.count_q ≡ (length ins + 1) % 2 ^ 16)
      × (u.account.busy_q ≡ false)
      × (u.account.done_q ≡ true)
      × (u.account.beats_q ≡ 0)
tile_overlap p w v ins outs rest flow none r d i =
    let counts = rest-Counts rest flow none in
    let (busy, done, beats, count) = done-account p v (length ins) r d counts in
    (
      Flow-handed p w v ins outs rest flow d,
      filled p v r i,
      count ∙ ap (λ b. (length ins + one_if b) % 2 ^ 16) i,
      busy,
      done,
      beats,
    )
