-- ===== src/Rtl/ReluAxi/Stream.antt =====
-- The stream side of rtl/relu_axi.sv as a queue: its abstract state is the list of the beats inside,
-- and every edge takes beats at one end and hands them over at the other.
use zynq_rtl_flow.Base.{
  ℕ, ◌≤◌, List, [], ◌++◌, map, append_assoc, append-nil, map-append, length, Bool, true, false,
  ◌&&◌, ◌||◌, not, ◌≡◌, refl, sym, ap, ◌∙◌, arith, if◌then◌else◌, when,
}
use zynq_rtl_flow.Rtl.ReluUnit.{relu_unit}
use zynq_rtl_flow.Rtl.ReluAxi.{
  ReluPorts, Stage, ReluAxi, relu_edge, relu_run, relu_reset, in_fire, out_fire, next_stage,
}

-- a beat with its TLAST
abbrev pub OutBeat : Type 0
OutBeat = ℕ × Bool

-- a beat taken: its bits, the slope it meets, and its TLAST
pub record InBeat : Type 0 where
  pub bits : ℕ
  pub slope : ℕ
  pub last : Bool

abbrev pub activate : InBeat → OutBeat
activate b = (relu_unit b.bits b.slope, b.last)

abbrev stage_of : Bool → Bool → ℕ → Stage
stage_of valid last byte = record { out_valid_q = valid; out_last_q = last; out_data_q = byte }

-- the beat in the register, and the beats inside
abbrev pub front : Stage → OutBeat
front s = (s.out_data_q, s.out_last_q)

abbrev pub inside : Stage → List OutBeat
inside s = when s.out_valid_q (front s)

abbrev pub held : ReluAxi → List OutBeat
held w = inside w.stage

at_most_one : (b : Bool) (x : OutBeat) → length (when b x) ≤ 1
at_most_one true x = omega arith
at_most_one false x = omega arith

-- what an edge takes and hands over
abbrev pub taken : ReluPorts → ReluAxi → List InBeat
taken p w = when (in_fire p w) (record { bits = p.tdata; slope = w.slope_reg; last = p.tlast })

abbrev pub handed : ReluPorts → ReluAxi → List OutBeat
handed p w = when (out_fire p w) (front w.stage)

-- the register behind an edge, a beat taken only if it is free or handed over
stage-inside :
    (valid last : Bool) (byte : ℕ) (offered en ready : Bool) (b : OutBeat)
    → let s = stage_of valid last byte in
      let takes = offered && (en && (not valid || ready)) in
      when (valid && ready) (front s) ++ inside (next_stage takes (valid && ready) b.1 b.0 s)
      ≡ inside s ++ when takes b
unfolding next_stage
stage-inside true last byte true true true b = refl
stage-inside true last byte true true false b = refl
stage-inside true last byte true false true b = refl
stage-inside true last byte true false false b = refl
stage-inside true last byte false en true b = refl
stage-inside true last byte false en false b = refl
stage-inside false last byte true true ready b = refl
stage-inside false last byte true false ready b = refl
stage-inside false last byte false en ready b = refl

map-when : {A B : Type 0} (f : A → B) (b : Bool) (x : A) → map f (when b x) ≡ when b (f x)
map-when f true x = refl
map-when f false x = refl

pub edge-stage :
    (p : ReluPorts) (w : ReluAxi)
    → p.aresetn ≡ true
    → (relu_edge p w).stage
      ≡ next_stage (in_fire p w) (out_fire p w) p.tlast (relu_unit p.tdata w.slope_reg) w.stage
unfolding relu_edge relu_run
edge-stage p w r = ap (λ b. (if b then relu_run p w else relu_reset w).stage) r

-- An edge out of reset keeps the order and loses nothing: what it hands over, then what is inside
-- behind it, is what was inside before it, then the activated beat it takes.
pub relu_edge-held :
    (p : ReluPorts) (w : ReluAxi)
    → p.aresetn ≡ true
    → handed p w ++ held (relu_edge p w) ≡ held w ++ map activate (taken p w)
relu_edge-held p w r =
    ap (λ s. handed p w ++ inside s) (edge-stage p w r)
    ∙ (stage-inside w.stage.out_valid_q w.stage.out_last_q w.stage.out_data_q p.tvalid w.en_reg
          p.m_tready (relu_unit p.tdata w.slope_reg, p.tlast)
        ∙ ap (λ x. held w ++ x)
            (sym (
              map-when activate (in_fire p w)
                (record { bits = p.tdata; slope = w.slope_reg; last = p.tlast }))))

-- Edges out of reset, with the beats they took and the beats they handed over, both in order.
pub data Flow : ReluAxi → List InBeat → List OutBeat → ReluAxi → Type 0 where
  at_rest : (w : ReluAxi) → Flow w [] [] w
  edge :
      (p : ReluPorts) (w v : ReluAxi) (ins : List InBeat) (outs : List OutBeat)
      → p.aresetn ≡ true
      → Flow (relu_edge p w) ins outs v
      → Flow w (taken p w ++ ins) (handed p w ++ outs) v

-- However the source, EN and the sink stall, the stream side is a queue of at most one beat that
-- activates what it takes: what was inside, then the activated beats taken, is what was handed over,
-- then what is inside at the end.
pub Flow-queue :
    {w v : ReluAxi} {ins : List InBeat} {outs : List OutBeat}
    → Flow w ins outs v
    → (held w ++ map activate ins ≡ outs ++ held v) × (length (held v) ≤ 1)
Flow-queue (at_rest w) = (append-nil (held w), at_most_one w.stage.out_valid_q (front w.stage))
Flow-queue (edge p w v ins outs r rest) =
    let (same, short) = Flow-queue rest in
    (
      ap (λ x. held w ++ x) (map-append activate (taken p w) ins)
          ∙ (sym (append_assoc (held w) (map activate (taken p w)) (map activate ins))
              ∙ (ap (λ x. x ++ map activate ins) (sym (relu_edge-held p w r))
                  ∙ (append_assoc (handed p w) (held (relu_edge p w)) (map activate ins)
                      ∙ (ap (λ x. handed p w ++ x) same
                          ∙ sym (append_assoc (handed p w) outs (held v)))))),
      short,
    )
