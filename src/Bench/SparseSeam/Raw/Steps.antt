-- ===== src/Bench/SparseSeam/Raw/Steps.antt =====
-- What the coroutines of RawAxiLite and the wrapper's channels make of each other, edge by edge.
use mathlib.Core.Path.{ap₂}
use zynq_rtl_flow.Base.{ℕ, zero, suc, true, false, ◌≡◌, refl, ap, ◌∙◌, arith, ok}
use zynq_rtl_flow.Rtl.AxiLite.{LiteMaster}
use zynq_rtl_flow.Rtl.Wrapper.{aclk_edge, rd_mux}
use zynq_rtl_flow.Bench.SparseSeam.Raw.{
  StreamSource, Settling, Sim, ports, drive, rising_edge, fires, plus, withdraw, settle_write,
}

abbrev pub unsettled : Settling
unsettled = record { aw = false; w = false }

abbrev pub settled : Settling
settled = record { aw = true; w = true }

abbrev pub drop_read : LiteMaster → LiteMaster
drop_read m = record m { arvalid = false }

module _ (source : StreamSource) where
  -- Between two calls of the master, out of reset: no address and no data is offered, every response
  -- is taken, and the slave holds neither half of a write.
  pub record IsIdle (s : Sim source) : Type 0 where
    pub running : s.aresetn ≡ true
    pub no_aw : s.lite.awvalid ≡ false
    pub no_w : s.lite.wvalid ≡ false
    pub no_ar : s.lite.arvalid ≡ false
    pub takes_b : s.lite.bready ≡ true
    pub takes_r : s.lite.rready ≡ true
    pub aw_free : s.dut.write.aw_pend ≡ false
    pub w_free : s.dut.write.w_pend ≡ false

  -- An idle edge ends whatever response was pending.
  pub rising_edge-IsIdle :
      (s : Sim source)
      → IsIdle s
      → IsIdle (rising_edge source s)
        × ((rising_edge source s).dut.write.bvalid_q ≡ false)
        × ((rising_edge source s).dut.read.rvalid_q ≡ false)
  unfolding rising_edge aclk_edge
  rising_edge-IsIdle s i = (
    record {
      running = i.running;
      no_aw = i.no_aw;
      no_w = i.no_w;
      no_ar = i.no_ar;
      takes_b = i.takes_b;
      takes_r = i.takes_r;
      aw_free = ground arith;
      w_free = ground arith;
    },
    ground arith,
    ground arith,
  )

  pub settled-settle_write : (n : ℕ) (s : Sim source) → settle_write source n settled s ≡ (ok tt, s)
  unfolding settle_write
  settled-settle_write zero s = refl
  settled-settle_write (suc n) s = refl

  pub fires-both :
      (s : Sim source)
      → s.dut.write.aw_pend ≡ false
      → s.dut.write.w_pend ≡ false
      → s.dut.write.bvalid_q ≡ false
      → fires source unsettled s ≡ settled
  fires-both s a w b = ap₂ (λ x y. record { aw = x; w = y }) (ground arith) (ground arith)

  -- With the slave free, one round settles a write.
  pub settle_write-once :
      (n : ℕ) (s : Sim source)
      → s.dut.write.aw_pend ≡ false
      → s.dut.write.w_pend ≡ false
      → s.dut.write.bvalid_q ≡ false
      → settle_write source (suc n) unsettled s
        ≡ (ok tt, drive source (withdraw source settled) (rising_edge source s))
  unfolding settle_write
  settle_write-once n s a w b =
      ap
        (λ f.
          settle_write source n (plus source unsettled f)
            (drive source (withdraw source f) (rising_edge source s)))
        (fires-both s a w b)
      ∙ settled-settle_write n (drive source (withdraw source settled) (rising_edge source s))

  -- An address that the slave accepts is answered with what it selects.
  pub accept-edge :
      (s : Sim source)
      → s.aresetn ≡ true
      → s.lite.arvalid ≡ true
      → s.dut.read.rvalid_q ≡ false
      → ((rising_edge source s).dut.read.rvalid_q ≡ true)
        × ((rising_edge source s).dut.read.rdata_q ≡ rd_mux (ports source s) s.dut)
  unfolding rising_edge aclk_edge
  accept-edge s r v q = (ground arith, ground arith)
