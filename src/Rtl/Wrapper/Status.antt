-- ===== src/Rtl/Wrapper/Status.antt =====
-- STATUS of rtl/sparse_cnn_axi.sv after a START: never the pattern of a completed tile.
use zynq_rtl_flow.Base.{
  ℕ, ◌+◌, ◌*◌, Bool, true, false, ◌||◌, not, ◌≡◌, ◌≢◌, ◌⊎◌, inl, inr, refl, arith, ok,
}
use zynq_rtl_flow.Rtl.Wrapper.{
  s_latch, is_idle, Ports, Wrapper, aclk_edge, rd_mux, status_word, start_taken, word_bit,
}
use zynq_rtl_flow.Bench.SparseSeam.{assert_tile_in_flight}

-- DONE is set only in the idle state.
abbrev pub IsWellFormed : Wrapper → Type 0
IsWellFormed w = (is_idle w.state || not w.done_q) ≡ true

-- Behind every edge of the clock DONE is set only in the idle state, if the edge is under reset or
-- it was so before.
pub aclk_edge-IsWellFormed :
    (p : Ports) (w : Wrapper) → (p.aresetn ≡ false) ⊎ IsWellFormed w → IsWellFormed (aclk_edge p w)
unfolding aclk_edge
aclk_edge-IsWellFormed p w (inl r) = ground arith
aclk_edge-IsWellFormed p w (inr h) = ground arith

-- A START waits for the tile machine, or the machine is not idle.
abbrev pub InFlight : Wrapper → Type 0
InFlight w = (w.ctrl.start_pulse || not (is_idle w.state)) ≡ true

-- Edges out of reset, none of them from the state that latches.
pub data Meanwhile : Wrapper → Wrapper → Type 0 where
  at_once : (w : Wrapper) → Meanwhile w w
  edge :
      (p : Ports) (w v : Wrapper)
      → p.aresetn ≡ true
      → w.state ≢ s_latch
      → Meanwhile (aclk_edge p w) v
      → Meanwhile w v

pub edge-InFlight :
    (p : Ports) (w : Wrapper)
    → p.aresetn ≡ true
    → w.state ≢ s_latch
    → InFlight w
    → InFlight (aclk_edge p w)
unfolding aclk_edge
edge-InFlight p w r s f = ground arith

-- the pattern of a tile in flight: BUSY and not DONE
abbrev pub Pattern : ℕ → Type 0
Pattern status = status ≡ 1

word-Pattern : (b d : Bool) → b ≡ true → d ≡ false → Pattern (word_bit b + 2 * word_bit d)
word-Pattern b d p q = ground arith

pub taken-Pattern : (p : Ports) (w : Wrapper) → start_taken p w ≡ true → Pattern (status_word p w)
unfolding status_word
taken-Pattern p w h = ground arith

pub flight-Pattern :
    (p : Ports) (w : Wrapper) → IsWellFormed w → InFlight w → Pattern (status_word p w)
unfolding status_word
flight-Pattern p w wf f = ground arith

pub Pattern-accepted :
    {S : Type 0} (status : ℕ) (s : S) → Pattern status → assert_tile_in_flight status s ≡ (ok tt, s)
unfolding assert_tile_in_flight
Pattern-accepted status s e = rw e refl

pub taken-InFlight :
    (p : Ports) (w : Wrapper)
    → p.aresetn ≡ true
    → w.state ≢ s_latch
    → start_taken p w ≡ true
    → InFlight (aclk_edge p w)
unfolding aclk_edge
taken-InFlight p w r s h = ground arith

Meanwhile-InFlight :
    {w v : Wrapper} → Meanwhile w v → IsWellFormed w → InFlight w → IsWellFormed v × InFlight v
Meanwhile-InFlight (at_once w) wf f = (wf, f)
Meanwhile-InFlight (edge p w v r s rest) wf f =
    Meanwhile-InFlight rest (aclk_edge-IsWellFormed p w (inr wf)) (edge-InFlight p w r s f)

-- In registers of which DONE is set only in the idle state: after a START that is committed outside
-- the latching state, the testbench's assertion on STATUS holds in every cycle until the results are
-- latched: in the cycle that commits the write, and behind any edges out of reset that do not leave
-- the latching state.
pub status_word-InFlight :
    (p q : Ports) (w v : Wrapper)
    → IsWellFormed w
    → p.aresetn ≡ true
    → w.state ≢ s_latch
    → start_taken p w ≡ true
    → Meanwhile (aclk_edge p w) v
    → (assert_tile_in_flight (status_word p w) tt ≡ (ok tt, tt))
      × (assert_tile_in_flight (status_word q v) tt ≡ (ok tt, tt))
status_word-InFlight p q w v wf r s h run =
    let (wf', f) =
      Meanwhile-InFlight run (aclk_edge-IsWellFormed p w (inr wf)) (taken-InFlight p w r s h) in
    (
      Pattern-accepted (status_word p w) tt (taken-Pattern p w h),
      Pattern-accepted (status_word q v) tt (flight-Pattern q v wf' f),
    )

-- What a read of STATUS returns.
pub rd_mux-status : (p : Ports) (w : Wrapper) → p.lite.araddr ≡ 8 → rd_mux p w ≡ status_word p w
unfolding rd_mux
rd_mux-status p w e = ground arith
