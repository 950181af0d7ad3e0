-- ===== src/Bench/ReluSeam/Monitor.antt =====
-- LastMonitor of tb/relu_axi/tb_relu_axi.py on the wrapper of rtl/relu_axi.sv.
use zynq_rtl_flow.Base.{
  when, ℕ, List, [], ◌∷◌, ◌++◌, map, append_assoc, append-nil, map-append, Bool, true, false, ◌≡◌,
  refl, sym, ap, ◌∙◌, if◌then◌else◌,
}
use zynq_rtl_flow.Rtl.ReluAxi.{ReluPorts, ReluAxi, out_fire}
use zynq_rtl_flow.Rtl.ReluAxi.Stream.{OutBeat, InBeat, Flow, at_rest, edge, front, handed}

abbrev pub bit_of : Bool → ℕ
bit_of b = if b then 1 else 0

-- a cycle of `LastMonitor.run`
unfoldable pub record_last : ReluPorts → ReluAxi → List ℕ → List ℕ
record_last p w flags = if out_fire p w then flags ++ (bit_of w.stage.out_last_q ∷ []) else flags

-- the flags behind the cycles of a flow
unfoldable pub watch :
    {w v : ReluAxi} {ins : List InBeat} {outs : List OutBeat} → Flow w ins outs v → List ℕ → List ℕ
unfolding record_last
watch (at_rest w) flags = flags
watch (edge p w v ins outs r rest) flags = watch rest (record_last p w flags)

-- TLAST of each beat
abbrev pub lasts : List OutBeat → List ℕ
lasts outs = map (λ b. bit_of b.1) outs

lasts-when :
    (b : Bool) (x : OutBeat) (flags : List ℕ) (outs : List OutBeat)
    → (if b then flags ++ (bit_of x.1 ∷ []) else flags) ++ lasts outs
      ≡ flags ++ lasts (when b x ++ outs)
lasts-when true x flags outs = append_assoc flags (bit_of x.1 ∷ []) (lasts outs)
lasts-when false x flags outs = refl

-- Over any cycles out of reset the monitor appends TLAST of exactly the beats that are handed over,
-- in order.
pub watch_lem :
    {w v : ReluAxi} {ins : List InBeat} {outs : List OutBeat} (flow : Flow w ins outs v)
    (flags : List ℕ)
    → watch flow flags ≡ flags ++ lasts outs
unfolding watch
watch_lem (at_rest w) flags = sym (append-nil flags)
watch_lem (edge p w v ins outs r rest) flags =
    watch_lem rest (record_last p w flags) ∙ lasts-when (out_fire p w) (front w.stage) flags outs

lasts-one :
    (b : Bool) (x : OutBeat) (flags : List ℕ)
    → (if b then flags ++ (bit_of x.1 ∷ []) else flags) ≡ flags ++ lasts (when b x)
lasts-one true x flags = refl
lasts-one false x flags = sym (append-nil flags)

-- The flags behind one more cycle, from none at the first.
pub record_last-watch :
    {w v : ReluAxi} {ins : List InBeat} {outs : List OutBeat} (p : ReluPorts)
    (flow : Flow w ins outs v)
    → record_last p v (watch flow []) ≡ lasts (outs ++ handed p v)
unfolding record_last
record_last-watch {w} {v} {ins} {outs} p flow =
    lasts-one (out_fire p v) (front v.stage) (watch flow [])
    ∙ (ap (λ x. x ++ lasts (handed p v)) (watch_lem flow [])
        ∙ sym (map-append (λ b. bit_of b.1) outs (handed p v)))
