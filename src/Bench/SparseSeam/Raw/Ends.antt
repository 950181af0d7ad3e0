-- ===== src/Bench/SparseSeam/Raw/Ends.antt =====
-- A read of RawAxiLite ends on the wrapper, and what it returns.
use mathlib.Core.Path.{subst}
use zynq_rtl_flow.Base.{
  ℕ, Bool, not, ◌&&◌, suc, true, false, ◌≡◌, refl, sym, ap, ◌∙◌, arith, ok, Bool-cases, inl, inr,
  if◌then◌else◌,
}
use zynq_rtl_flow.Rtl.Wrapper.{aclk_edge, rd_mux}
use zynq_rtl_flow.Bench.SparseSeam.Raw.{
  StreamSource, asking, waiting, finished, Sim, ports, drive, rising_edge, present_read, ask,
  read_on, read_loop, raw_read_dword,
}
use zynq_rtl_flow.Bench.SparseSeam.Raw.Steps.{drop_read, IsIdle, accept-edge}

module _ (source : StreamSource) where
  -- the first cycle in which the slave is ready for an address
  abbrev pub read_cycle : ℕ → Sim source → Sim source
  read_cycle addr s =
      let p = drive source (present_read addr) s in
      if s.dut.read.rvalid_q then rising_edge source p else p

  -- behind the edge that hands the data over
  abbrev pub delivered : Sim source → Sim source
  delivered s = rising_edge source (drive source drop_read (rising_edge source s))

  ask-accepted :
      (s t : Sim source)
      → s.dut.read.rvalid_q ≡ false
      → drive source (ask source s asking) t ≡ drive source drop_read t
  ask-accepted s t q = ap (λ x. drive source (λ m. record m { arvalid = x }) t) (ground arith)

  read_on-accepted :
      (s : Sim source) → s.dut.read.rvalid_q ≡ false → read_on source s asking ≡ waiting
  read_on-accepted s q = ground arith

  read_loop-waiting :
      (n : ℕ) (s : Sim source)
      → s.dut.read.rvalid_q ≡ true
      → read_loop source (suc n) waiting s ≡ (ok s.dut.read.rdata_q, rising_edge source s)
  unfolding read_loop
  read_loop-waiting n s q =
      ap
        (λ x.
          read_loop source n (if x then finished s.dut.read.rdata_q else waiting)
            (rising_edge source s))
        q

  read_loop-accepted :
      (n : ℕ) (s : Sim source)
      → s.aresetn ≡ true
      → s.lite.arvalid ≡ true
      → s.dut.read.rvalid_q ≡ false
      → read_loop source (suc (suc n)) asking s ≡ (ok (rd_mux (ports source s) s.dut), delivered s)
  unfolding read_loop
  read_loop-accepted n s r v q =
      let t = rising_edge source s in
      let (valid, got) = accept-edge source s r v q in
      ap (λ x. read_loop source (suc n) x (drive source (ask source s asking) t))
        (read_on-accepted s q)
      ∙ (ap (λ x. read_loop source (suc n) waiting x) (ask-accepted s t q)
          ∙ (read_loop-waiting n (drive source drop_read t) valid
              ∙ ap (λ x. (ok x, delivered s)) got))

  -- A master that only offers an address to read.
  record IsReading (s : Sim source) : Type 0 where
    running : s.aresetn ≡ true
    no_aw : s.lite.awvalid ≡ false
    no_w : s.lite.wvalid ≡ false
    asks : s.lite.arvalid ≡ true
    takes_b : s.lite.bready ≡ true
    takes_r : s.lite.rready ≡ true
    aw_free : s.dut.write.aw_pend ≡ false
    w_free : s.dut.write.w_pend ≡ false

  present_read-IsReading :
      (addr : ℕ) (s : Sim source) → IsIdle source s → IsReading (drive source (present_read addr) s)
  present_read-IsReading addr s i = record {
    running = i.running;
    no_aw = i.no_aw;
    no_w = i.no_w;
    asks = refl;
    takes_b = i.takes_b;
    takes_r = i.takes_r;
    aw_free = i.aw_free;
    w_free = i.w_free;
  }

  rising_edge-IsReading : (s : Sim source) → IsReading s → IsReading (rising_edge source s)
  unfolding rising_edge aclk_edge
  rising_edge-IsReading s i = record {
    running = i.running;
    no_aw = i.no_aw;
    no_w = i.no_w;
    asks = i.asks;
    takes_b = i.takes_b;
    takes_r = i.takes_r;
    aw_free = ground arith;
    w_free = ground arith;
  }

  pending-edge :
      (s : Sim source)
      → IsReading s
      → s.dut.read.rvalid_q ≡ true
      → (rising_edge source s).dut.read.rvalid_q ≡ false
  unfolding rising_edge aclk_edge
  pending-edge s i q = ground arith

  delivered-IsIdle :
      (s : Sim source)
      → IsReading s
      → s.dut.read.rvalid_q ≡ false
      → IsIdle source (delivered s) × ((delivered s).dut.read.rvalid_q ≡ false)
  unfolding rising_edge aclk_edge
  delivered-IsIdle s i q = (
    record {
      running = i.running;
      no_aw = i.no_aw;
      no_w = i.no_w;
      no_ar = refl;
      takes_b = i.takes_b;
      takes_r = i.takes_r;
      aw_free = ground arith;
      w_free = ground arith;
    },
    ground arith,
  )

  -- the end of a read whose address is accepted at once
  abbrev Delivers : ℕ → Sim source → Sim source → Type 0
  Delivers n start s =
      (read_loop source n asking start ≡ (ok (rd_mux (ports source s) s.dut), delivered s))
      × IsIdle source (delivered s)
      × ((delivered s).dut.read.rvalid_q ≡ false)

  accepted-Delivers :
      (n : ℕ) (s : Sim source)
      → IsReading s
      → s.dut.read.rvalid_q ≡ false
      → Delivers (suc (suc n)) s s
  accepted-Delivers n s i q =
      let (idle, none) = delivered-IsIdle s i q in
      (read_loop-accepted n s i.running i.asks q, idle, none)

  -- A read that finds a response pending asks once more.
  read_loop-pending :
      (n : ℕ) (s : Sim source)
      → s.dut.read.rvalid_q ≡ true
      → read_loop source (suc n) asking s ≡ read_loop source n asking (rising_edge source s)
  unfolding read_loop
  read_loop-pending n s q =
      ap
        (λ x. read_loop source n (if not x then waiting else asking) (
          drive source (λ m. record m { arvalid = not (not x) && m.arvalid })
            (rising_edge source s)))
        q

  -- Given three rounds at least, a read from an idle master ends, idle again, with what the address
  -- selects in the first cycle in which the slave is ready for it: the cycle of the call, or the next
  -- one behind a response that was pending.
  pub raw_read_dword-ends :
      (n addr : ℕ) (s : Sim source)
      → IsIdle source s
      → let a = read_cycle addr s in
        (raw_read_dword source (suc (suc (suc n))) addr s
          ≡ (ok (rd_mux (ports source a) a.dut), delivered a))
        × IsIdle source (delivered a)
        × ((delivered a).dut.read.rvalid_q ≡ false)
  unfolding raw_read_dword
  raw_read_dword-ends n addr s i =
      let p = drive source (present_read addr) s in
      let r = present_read-IsReading addr s i in
      let goal =
        λ (b : Bool). Delivers (suc (suc (suc n))) p (if b then rising_edge source p else p) in
      elim (Bool-cases s.dut.read.rvalid_q) [
        | inl pending ↦
            let (ends, idle, none) =
              accepted-Delivers n (rising_edge source p) (rising_edge-IsReading p r)
                (pending-edge p r pending) in
            subst goal (sym pending) (read_loop-pending (suc (suc n)) p pending ∙ ends, idle, none)
        | inr free ↦ subst goal (sym free) (accepted-Delivers (suc n) p r free)
      ]
