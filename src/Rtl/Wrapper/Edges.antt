-- ===== src/Rtl/Wrapper/Edges.antt =====
-- What one edge of the wrapper's clock does to the tile state and to what the PE holds.
use mathlib.Core.Path.{subst, ap₂}
use zynq_rtl_flow.Base.{
  ℕ, ◌+◌, ◌/◌, ◌%◌, ◌^◌, ◌<◌, ◌==◌, Bool, true, false, ◌||◌, ◌≡◌, sym, ap, ◌∙◌, arith,
  if◌then◌else◌,
}
use zynq_rtl_flow.Base.Int.{ℤ, pos, ◌+ℤ◌, ◌*ℤ◌, ◌==ℤ◌}
use zynq_rtl_flow.Words.{low_bits, signed}
use zynq_rtl_flow.Words.Laws
use zynq_rtl_flow.Golden.SparseMac.{skipped}
use zynq_rtl_flow.Rtl.Pe.{Pins, Pe}
use zynq_rtl_flow.Rtl.Pe
use zynq_rtl_flow.Rtl.Wrapper.{
  s_idle, s_clear, s_run, s_latch, Ports, Wrapper, aclk_edge, takes_beat, pe_clear, pe_pins,
}

-- the weight and the activation of a beat
abbrev pub operands : ℕ → ℤ × ℤ
operands word = (signed 8 (word % 2 ^ 8), signed 8 (word / 2 ^ 8 % 2 ^ 8))

-- The PE holds an accumulator and a skip count, each up to its width.
pub record PeHolds (s : Pe) (acc : ℤ) (skip : ℕ) : Type 0 where
  pub acc_is : s.acc ≡ low_bits 32 acc
  pub skip_is : s.skip_count ≡ skip % 2 ^ 16

pub signed-zero : (r : ℕ) → r < 2 ^ 8 → (r == 0) ≡ (signed 8 r ==ℤ pos 0)
unfolding signed
signed-zero r h = ground arith

pub clock-accepted :
    (s : Pe) (acc : ℤ) (skip : ℕ) (w a : ℕ)
    → w < 2 ^ 8
    → a < 2 ^ 8
    → PeHolds s acc skip
    → PeHolds
        (Pe.clock
          (record {
            rst_n = true;
            en = true;
            clear_acc = false;
            valid_in = true;
            weight = w;
            act = a;
          })
          s)
        (if skipped (signed 8 w) (signed 8 a) then acc else acc +ℤ signed 8 w *ℤ signed 8 a)
        (if skipped (signed 8 w) (signed 8 a) then skip + 1 else skip)
unfolding Pe.clock Pe.product
clock-accepted s acc skip w a lw la h =
    ground (
      arith,
      signed-zero w lw,
      signed-zero a la,
      Laws.low_bits32-add acc (signed 8 w *ℤ signed 8 a),
    )

-- Out of reset, and no explicit clear.
abbrev pub Quiet : Ports → Wrapper → Type 0
Quiet p w = (p.aresetn ≡ true) × (w.ctrl.clear_pulse ≡ false)

-- the accumulator and the skip count behind one more beat
abbrev pub step_acc : ℤ → ℕ → ℤ
step_acc acc word = let (w, a) = operands word in if skipped w a then acc else acc +ℤ w *ℤ a

abbrev pub step_skip : ℕ → ℕ → ℕ
step_skip skip word = let (w, a) = operands word in if skipped w a then skip + 1 else skip

pub stall-state :
    (p : Ports) (w : Wrapper)
    → Quiet p w
    → w.state ≡ s_run
    → takes_beat p w ≡ false
    → (aclk_edge p w).state ≡ s_run
unfolding aclk_edge
stall-state p w q s b = ground arith

pub stall-PeHolds :
    (p : Ports) (w : Wrapper) (acc : ℤ) (skip : ℕ)
    → Quiet p w
    → w.state ≡ s_run
    → takes_beat p w ≡ false
    → PeHolds w.pe acc skip
    → PeHolds (aclk_edge p w).pe acc skip
unfolding aclk_edge Pe.clock
stall-PeHolds p w acc skip q s b h = ground arith

pub beat-state :
    (p : Ports) (w : Wrapper)
    → Quiet p w
    → w.state ≡ s_run
    → takes_beat p w ≡ true
    → (aclk_edge p w).state ≡ (if p.tlast then s_latch else s_run)
unfolding aclk_edge
beat-state p w q s b = ground arith

-- the pins of the PE for a reset, a beat or none, and a clear
abbrev pub pins_of : Bool → Bool → Bool → ℕ → Pins
pins_of reset taken clears word = record {
  rst_n = reset;
  en = taken || clears;
  clear_acc = clears;
  valid_in = taken;
  weight = word % 2 ^ 8;
  act = word / 2 ^ 8 % 2 ^ 8;
}

-- the pins of the PE in a cycle that takes a beat
abbrev pub beat_pins : ℕ → Pins
beat_pins word = record {
  rst_n = true;
  en = true;
  clear_acc = false;
  valid_in = true;
  weight = word % 2 ^ 8;
  act = word / 2 ^ 8 % 2 ^ 8;
}

pub run-pe_clear : (w : Wrapper) → w.ctrl.clear_pulse ≡ false → w.state ≡ s_run → pe_clear w ≡ false
run-pe_clear w c s = ground arith

pub beat-pe_pins :
    (p : Ports) (w : Wrapper)
    → Quiet p w
    → w.state ≡ s_run
    → takes_beat p w ≡ true
    → pe_pins p w ≡ beat_pins p.tdata
unfolding pe_pins
beat-pe_pins p w q s b =
    ap₂ (λ r t. pins_of r t (pe_clear w) p.tdata) q.0 b
    ∙ ap (λ c. pins_of true true c p.tdata) (run-pe_clear w q.1 s)

pub edge-pe : (p : Ports) (w : Wrapper) → (aclk_edge p w).pe ≡ Pe.clock (pe_pins p w) w.pe
unfolding aclk_edge
edge-pe p w = ground arith

pub beat-PeHolds :
    (p : Ports) (w : Wrapper) (acc : ℤ) (skip : ℕ)
    → Quiet p w
    → w.state ≡ s_run
    → takes_beat p w ≡ true
    → PeHolds w.pe acc skip
    → PeHolds (aclk_edge p w).pe (step_acc acc p.tdata) (step_skip skip p.tdata)
beat-PeHolds p w acc skip q s b h =
    subst (λ x. PeHolds x (step_acc acc p.tdata) (step_skip skip p.tdata))
      (sym (edge-pe p w ∙ ap (λ x. Pe.clock x w.pe) (beat-pe_pins p w q s b)))
      (clock-accepted w.pe acc skip (p.tdata % 2 ^ 8) (p.tdata / 2 ^ 8 % 2 ^ 8) (omega arith)
        (omega arith) h)

-- The edge that takes a START, in the idle state.
pub start-edge :
    (p : Ports) (w : Wrapper)
    → p.aresetn ≡ true
    → w.state ≡ s_idle
    → w.ctrl.start_pulse ≡ true
    → ((aclk_edge p w).state ≡ s_clear) × ((aclk_edge p w).done_q ≡ false)
unfolding aclk_edge
start-edge p w r s q = ground arith

-- The edge that clears the PE, before the first beat.
pub clear-edge :
    (p : Ports) (w : Wrapper)
    → p.aresetn ≡ true
    → w.state ≡ s_clear
    → ((aclk_edge p w).state ≡ s_run) × PeHolds (aclk_edge p w).pe (pos 0) 0
unfolding aclk_edge Pe.clock low_bits
clear-edge p w r s = ground arith

-- Neither the clearing of the PE nor a cycle of the stream touches DONE.
pub clear-done :
    (p : Ports) (w : Wrapper)
    → p.aresetn ≡ true
    → w.state ≡ s_clear
    → w.done_q ≡ false
    → (aclk_edge p w).done_q ≡ false
unfolding aclk_edge
clear-done p w r s low = ground arith

pub run-done :
    (p : Ports) (w : Wrapper)
    → Quiet p w
    → w.state ≡ s_run
    → w.done_q ≡ false
    → (aclk_edge p w).done_q ≡ false
unfolding aclk_edge
run-done p w q s low = ground arith

-- The edge that latches the results.
pub latch-edge :
    (p : Ports) (w : Wrapper)
    → Quiet p w
    → w.state ≡ s_latch
    → ((aclk_edge p w).state ≡ s_idle)
      × ((aclk_edge p w).done_q ≡ true)
      × ((aclk_edge p w).acc_q ≡ w.pe.acc)
      × ((aclk_edge p w).skip_q ≡ w.pe.skip_count)
unfolding aclk_edge
latch-edge p w q s = ground arith
