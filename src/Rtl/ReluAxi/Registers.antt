-- ===== src/Rtl/ReluAxi/Registers.antt =====
-- The writable registers of rtl/relu_axi.sv as a file that writes fill, in the order in which the
-- master's addresses and data are accepted.
use mathlib.Core.List.{foldl}
use zynq_rtl_flow.Base.{
  ℕ, ◌+◌, ◌%◌, ◌^◌, ◌==◌, List, [], ◌∷◌, ◌++◌, length, map, when, Bool, true, false, ◌&&◌, ◌≡◌,
  refl, sym, ap, ◌∙◌, if◌then◌else◌,
}
use zynq_rtl_flow.Words.{test_bit}
use zynq_rtl_flow.Rtl.AxiLite.{wr_commit, wr_addr, wr_data, wr_strb}
use zynq_rtl_flow.Rtl.AxiLite.Writes.{
  Payload, addressed, supplied, committed, bit_of, WriteFlow, at_rest, edge, IsOrderly,
  waiting_addr, waiting_data, WriteFlow-in_order,
}
use zynq_rtl_flow.Rtl.ReluAxi.{ReluPorts, ReluAxi, relu_run, next_en, next_slope}

-- EN and SLOPE
abbrev pub Registers : Type 0
Registers = Bool × ℕ

abbrev pub registers : ReluAxi → Registers
registers w = (w.en_reg, w.slope_reg)

-- a write with its byte strobes: CTRL keeps bit 0, SLOPE its low byte, and no other offset is writable
abbrev pub write_register : Registers → ℕ × Payload → Registers
write_register r (addr, (word, strobes)) = (
  if addr == 4 && test_bit strobes 0 then test_bit word 0 else r.0,
  if addr == 12 && test_bit strobes 0 then word % 2 ^ 8 else r.1,
)

-- cycles out of reset, by what is driven in each: the state behind them, the addresses and the data
-- accepted, the writes committed, and the responses taken
abbrev pub run_edges : List ReluPorts → ReluAxi → ReluAxi
run_edges [] w = w
run_edges (p ∷ ps) w = run_edges ps (relu_run p w)

abbrev pub addresses : List ReluPorts → ReluAxi → List ℕ
addresses [] w = []
addresses (p ∷ ps) w = addressed p.lite w.write ++ addresses ps (relu_run p w)

abbrev pub payloads : List ReluPorts → ReluAxi → List Payload
payloads [] w = []
payloads (p ∷ ps) w = supplied p.lite w.write ++ payloads ps (relu_run p w)

abbrev pub writes : List ReluPorts → ReluAxi → List (ℕ × Payload)
writes [] w = []
writes (p ∷ ps) w = committed p.lite w.write ++ writes ps (relu_run p w)

abbrev pub responses : List ReluPorts → ReluAxi → ℕ
responses [] w = 0
responses (p ∷ ps) w = bit_of (w.write.bvalid_q && p.lite.bready) + responses ps (relu_run p w)

flow_of :
    (ps : List ReluPorts) (w : ReluAxi)
    → WriteFlow w.write
        (addresses ps w)
        (payloads ps w)
        (writes ps w)
        (responses ps w)
        (run_edges ps w).write
unfolding relu_run
flow_of [] w = at_rest w.write
flow_of (p ∷ ps) w =
    edge p.lite w.write (run_edges ps (relu_run p w)).write (addresses ps (relu_run p w))
      (payloads ps (relu_run p w)) (writes ps (relu_run p w)) (responses ps (relu_run p w))
      (flow_of ps (relu_run p w))

-- a write that is committed or not
file-when :
    (commit : Bool) (r : Registers) (addr word strobes : ℕ)
    → foldl write_register r (when commit (addr, (word, strobes))) ≡ (
      if (commit && addr == 4) && test_bit strobes 0 then test_bit word 0 else r.0,
      if (commit && addr == 12) && test_bit strobes 0 then word % 2 ^ 8 else r.1,
    )
file-when true r addr word strobes = refl
file-when false r addr word strobes = refl

edge-registers :
    (p : ReluPorts) (w : ReluAxi)
    → registers (relu_run p w) ≡ foldl write_register (registers w) (committed p.lite w.write)
unfolding relu_run next_en next_slope
edge-registers p w = sym (
    file-when (wr_commit p.lite w.write) (registers w) (wr_addr p.lite w.write)
      (wr_data p.lite w.write) (wr_strb p.lite w.write))

foldl-when :
    (b : Bool) (x : ℕ × Payload) (r : Registers) (xs : List (ℕ × Payload))
    → foldl write_register (foldl write_register r (when b x)) xs
      ≡ foldl write_register r (when b x ++ xs)
foldl-when true x r xs = refl
foldl-when false x r xs = refl

registers-writes :
    (ps : List ReluPorts) (w : ReluAxi)
    → registers (run_edges ps w) ≡ foldl write_register (registers w) (writes ps w)
registers-writes [] w = refl
registers-writes (p ∷ ps) w =
    registers-writes ps (relu_run p w)
    ∙ (ap (λ r. foldl write_register r (writes ps (relu_run p w))) (edge-registers p w)
        ∙ foldl-when (wr_commit p.lite w.write)
            (wr_addr p.lite w.write, (wr_data p.lite w.write, wr_strb p.lite w.write)) (registers w)
            (writes ps (relu_run p w)))

-- From a write channel in order, as every one behind a reset is: over any cycles out of reset, whatever the master, the source and the sink do: EN and SLOPE are what
-- the committed writes make of them, one after the other; the writes are the accepted addresses and
-- data, each in order, but for a half that still waits; and the responses taken are as many as the
-- writes, but for one that is pending.
pub registers_in_order :
    (ps : List ReluPorts) (w : ReluAxi)
    → IsOrderly w.write
    → let v = run_edges ps w in
      (registers v ≡ foldl write_register (registers w) (writes ps w))
      × (waiting_addr w.write ++ addresses ps w
          ≡ map (λ x. x.0) (writes ps w) ++ waiting_addr v.write)
      × (waiting_data w.write ++ payloads ps w
          ≡ map (λ x. x.1) (writes ps w) ++ waiting_data v.write)
      × (bit_of w.write.bvalid_q + length (writes ps w) ≡ responses ps w + bit_of v.write.bvalid_q)
registers_in_order ps w h =
    let (_, in_addr, in_data, answered) = WriteFlow-in_order h (flow_of ps w) in
    (registers-writes ps w, in_addr, in_data, answered)
