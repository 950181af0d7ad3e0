-- ===== src/Bench/SparseSeam/Raw/Supply.antt =====
-- How far a tile has come, edge by edge, while the stream source of the testbench supplies its beats.
use zynq_rtl_flow.Base.{
  ℕ, suc, ◌+◌, ◌%◌, ◌^◌, ◌≤◌, List, [], ◌∷◌, map, length, Bool, true, false, ◌≡◌, ◌⊎◌, ◌∙◌, arith,
}
use zynq_rtl_flow.Base.Int.{ℤ, pos}
use zynq_rtl_flow.Words.{low_bits}
use zynq_rtl_flow.Golden.SparseMac.{golden_from}
use zynq_rtl_flow.Rtl.Wrapper.{s_idle, s_clear, s_run, s_latch, Ports, Wrapper, aclk_edge}
use zynq_rtl_flow.Rtl.Wrapper.Edges.{operands, PeHolds}
use zynq_rtl_flow.Bench.SparseSeam.Raw.{StreamSource, Beat, Sim, ports, rising_edge}

abbrev pub beat_of : ℕ → List ℕ → Beat
beat_of word [] = record { tdata = word; tvalid = true; tlast = true }
beat_of word (next ∷ words) = record { tdata = word; tvalid = true; tlast = false }

-- What a source keeps to that may stall for so many cycles in a frame: it holds words, and that many
-- cycles it may still let pass without a beat; it offers the words in order, TLAST on the final one,
-- and each until it was taken.
pub record Supply (source : StreamSource) (lag : ℕ) : Type 1 where
  pub Holds : ℕ → List ℕ → source.Source → Type 0
  pub rests :
      (d : ℕ) (x : source.Source)
      → Holds d [] x
      → ((source.offered x).tvalid ≡ false) × ((ready : Bool) → Holds d [] (source.advance ready x))
  pub supplies :
      (d word : ℕ) (words : List ℕ) (x : source.Source)
      → Holds d (word ∷ words) x
      → ((source.offered x ≡ beat_of word words)
          × Holds d (word ∷ words) (source.advance false x)
          × Holds d words (source.advance true x))
        ⊎ (((source.offered x).tvalid ≡ false)
            × (e : ℕ) × (suc e ≡ d)
            × ((ready : Bool) → Holds e (word ∷ words) (source.advance ready x)))
  pub queues :
      (d : ℕ) (words : List ℕ) (x : source.Source)
      → Holds d [] x
      → Holds lag words (source.queue words x)

-- Out of reset, no write reaches the wrapper.
abbrev pub NoWrite : Ports → Wrapper → Type 0
NoWrite p w =
    (p.aresetn ≡ true)
    × (p.lite.awvalid ≡ false)
    × (p.lite.wvalid ≡ false)
    × (w.write.aw_pend ≡ false)
    × (w.write.w_pend ≡ false)

pub calm-ctrl :
    (p : Ports) (w : Wrapper)
    → NoWrite p w
    → let v = aclk_edge p w in
      (v.ctrl.start_pulse ≡ false)
      × (v.ctrl.clear_pulse ≡ false)
      × (v.ctrl.en_reg ≡ w.ctrl.en_reg)
      × (v.write.aw_pend ≡ false)
      × (v.write.w_pend ≡ false)
unfolding aclk_edge
calm-ctrl p w h =
    let a = h.1 in (ground arith, ground arith, ground arith, ground arith, ground arith)

pub clear-done :
    (p : Ports) (w : Wrapper)
    → p.aresetn ≡ true
    → w.state ≡ s_clear
    → (aclk_edge p w).done_q ≡ w.done_q
unfolding aclk_edge
clear-done p w r s = ground arith

pub run-done :
    (p : Ports) (w : Wrapper)
    → p.aresetn ≡ true
    → w.state ≡ s_run
    → (aclk_edge p w).done_q ≡ w.done_q
unfolding aclk_edge
run-done p w r s = ground arith

pub rest-edge :
    (p : Ports) (w : Wrapper)
    → p.aresetn ≡ true
    → w.state ≡ s_idle
    → w.ctrl.start_pulse ≡ false
    → w.ctrl.clear_pulse ≡ false
    → let v = aclk_edge p w in
      (v.state ≡ s_idle) × (v.done_q ≡ w.done_q) × (v.acc_q ≡ w.acc_q) × (v.skip_q ≡ w.skip_q)
unfolding aclk_edge
rest-edge p w r s a c = (ground arith, ground arith, ground arith, ground arith)

module _ (source : StreamSource) (lag : ℕ) (supply : Supply source lag) where
  open supply use {Holds, rests, supplies}

  -- No write reaches the wrapper, no clear is pending, and EN is set.
  pub record IsCalm (s : Sim source) : Type 0 where
    pub no_write : NoWrite (ports source s) s.dut
    pub no_clear : s.dut.ctrl.clear_pulse ≡ false
    pub enabled : s.dut.ctrl.en_reg ≡ true

  pub IsCalm-edge :
      (s : Sim source)
      → IsCalm s
      → IsCalm (rising_edge source s) × ((rising_edge source s).dut.ctrl.start_pulse ≡ false)
  unfolding rising_edge
  IsCalm-edge s c =
      let (start, clear, en, aw, w) = calm-ctrl (ports source s) s.dut c.no_write in
      (
        record {
          no_write = (c.no_write.0, c.no_write.1, c.no_write.2, aw, w);
          no_clear = clear;
          enabled = en ∙ c.enabled;
        },
        start,
      )

  -- At most so many edges away from a completed tile with these results.
  pub data Ahead (acc : ℤ) (skip : ℕ) : ℕ → Sim source → Type 0 where
    starting :
        (m d word : ℕ) (words : List ℕ) (s : Sim source)
        → s.dut.state ≡ s_idle
        → s.dut.ctrl.start_pulse ≡ true
        → Holds d (word ∷ words) s.src
        → golden_from (pos 0) 0 (map operands (word ∷ words)) ≡ (acc, skip)
        → d + length words + 4 ≤ m
        → Ahead acc skip m s
    clearing :
        (m d word : ℕ) (words : List ℕ) (s : Sim source)
        → s.dut.state ≡ s_clear
        → s.dut.done_q ≡ false
        → Holds d (word ∷ words) s.src
        → golden_from (pos 0) 0 (map operands (word ∷ words)) ≡ (acc, skip)
        → d + length words + 3 ≤ m
        → Ahead acc skip m s
    running :
        (m d word : ℕ) (words : List ℕ) (s : Sim source)
        → s.dut.state ≡ s_run
        → s.dut.done_q ≡ false
        → Holds d (word ∷ words) s.src
        → (partial : ℤ) (skips : ℕ) → PeHolds s.dut.pe partial skips
        → golden_from partial skips (map operands (word ∷ words)) ≡ (acc, skip)
        → d + length words + 2 ≤ m
        → Ahead acc skip m s
    latching :
        (m d : ℕ) (s : Sim source)
        → s.dut.state ≡ s_latch
        → s.dut.done_q ≡ false
        → Holds d [] s.src
        → PeHolds s.dut.pe acc skip
        → 1 ≤ m
        → Ahead acc skip m s
    complete :
        (m d : ℕ) (s : Sim source)
        → s.dut.state ≡ s_idle
        → s.dut.ctrl.start_pulse ≡ false
        → s.dut.done_q ≡ true
        → Holds d [] s.src
        → s.dut.acc_q ≡ low_bits 32 acc
        → s.dut.skip_q ≡ skip % 2 ^ 16
        → Ahead acc skip m s
