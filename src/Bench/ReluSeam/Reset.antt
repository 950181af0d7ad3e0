-- ===== src/Bench/ReluSeam/Reset.antt =====
-- `reset` of tb/relu_axi/tb_relu_axi.py, on the wrapper.
use zynq_rtl_flow.Base.{ℕ, zero, suc, ◌==◌, true, false, ◌≡◌, arith, if◌then◌else◌}
use zynq_rtl_flow.Golden.Relu.{slope_reset}
use zynq_rtl_flow.Rtl.AxiLite.{LiteMaster}
use zynq_rtl_flow.Rtl.ReluAxi.{ReluPorts, ReluAxi, relu_edge, relu_mux}
use zynq_rtl_flow.Rtl.ReluAxi.Accounting.{AtRest}
use zynq_rtl_flow.Rtl.ReluAxi.Golden.{reading}

-- the driven pins, and the wrapper
pub record ReluSim : Type 0 where
  pub pins : ReluPorts
  pub dut : ReluAxi

-- `await RisingEdge(dut.aclk)`
unfoldable pub next_rising : ReluSim → ReluSim
unfolding relu_edge
next_rising s = record s { dut = relu_edge s.pins s.dut }

-- `for _ in range(n)`
unfoldable pub risings : ℕ → ReluSim → ReluSim
unfolding next_rising
risings zero s = s
risings (suc n) s = risings n (next_rising s)

abbrev pub reset_pins : ReluPorts → ReluPorts
reset_pins p = record p { aresetn = false; tvalid = false; m_tready = false }

-- the clock runs by itself, and the masters that are built at the end drive nothing yet
unfoldable pub reset : ReluSim → ReluSim
unfolding risings
reset s =
    let held = risings 5 (record s { pins = reset_pins s.pins }) in
    next_rising (record held { pins = record held.pins { aresetn = true } })

-- what every offset reads behind a reset
abbrev pub reset_word : ℕ → ℕ
reset_word addr =
    if addr == 0 then 1380712704 else if addr == 4 then 1 else if addr == 12 then slope_reset else 0

-- The wrapper as the tests find it.
pub record IsFresh (w : ReluAxi) : Type 0 where
  pub enabled : w.en_reg ≡ true
  pub default_slope : w.slope_reg ≡ slope_reset
  pub at_rest : AtRest w
  pub not_done : w.account.done_q ≡ false
  pub no_count : w.account.count_q ≡ 0
  pub no_aw : w.write.aw_pend ≡ false
  pub no_w : w.write.w_pend ≡ false
  pub no_b : w.write.bvalid_q ≡ false
  pub no_r : w.read.rvalid_q ≡ false

-- no address and no data is offered
abbrev pub Silent : LiteMaster → Type 0
Silent m = (m.awvalid ≡ false) × (m.wvalid ≡ false) × (m.arvalid ≡ false)

released-IsFresh :
    (p : ReluPorts) (w : ReluAxi)
    → Silent p.lite
    → IsFresh (relu_edge (record (reset_pins p) { aresetn = true }) (relu_edge (reset_pins p) w))
unfolding relu_edge
released-IsFresh p w (aw, dw, ar) = record {
  enabled = ground arith;
  default_slope = ground arith;
  at_rest = record { free = ground arith; no_beats = ground arith; not_busy = ground arith };
  not_done = ground arith;
  no_count = ground arith;
  no_aw = ground arith;
  no_w = ground arith;
  no_b = ground arith;
  no_r = ground arith;
}

fresh-word :
    (addr : ℕ) (q : ReluPorts) (w : ReluAxi)
    → IsFresh w
    → relu_mux (reading addr q) w ≡ reset_word addr
unfolding relu_mux
fresh-word addr q w h =
    let busy = h.at_rest.not_busy in
    rw (h.enabled, h.default_slope, h.no_count, busy, h.not_done) (ground arith)

-- Whatever the simulation starts in, as long as no master offers an address or data, `reset` leaves the
-- wrapper at rest with EN set and the default slope, and then every offset reads as the tests of the
-- reset values and of an unmapped offset ask: ID, EN alone in CTRL, no status, the default SLOPE, a
-- COUNT of 0, and 0 at any other.
pub reset-IsFresh :
    (s : ReluSim)
    → Silent s.pins.lite
    → IsFresh (reset s).dut
      × ((addr : ℕ) (q : ReluPorts) → relu_mux (reading addr q) (reset s).dut ≡ reset_word addr)
unfolding reset
reset-IsFresh s quiet =
    let before = risings 4 (record s { pins = reset_pins s.pins }) in
    let fresh = released-IsFresh s.pins before.dut quiet in
    (fresh, λ addr q. fresh-word addr q (reset s).dut fresh)
