-- ===== src/Bench/SparseSeam/Raw/Rest.antt =====
-- What RawAxiLite reads of the wrapper between two tiles: every register, over and over.
use zynq_rtl_flow.Base.{
  ℕ, suc, ◌+◌, ◌*◌, ◌==◌, [], Bool, true, false, ◌≡◌, refl, ap, ◌∙◌, arith, ok, if◌then◌else◌,
}
use zynq_rtl_flow.Effects.{lift, return}
use zynq_rtl_flow.Base.Int.{pos}
use zynq_rtl_flow.Golden.SparseMac.{acc_w, to_signed}
use zynq_rtl_flow.Bench.SparseSeam.{reg_acc, read_acc}
use zynq_rtl_flow.Effects.Laws.{bind-ok}
use zynq_rtl_flow.Rtl.Wrapper.{
  s_idle, Ports, Wrapper, rd_mux, status_word, word_bit, aclk_edge, tready,
}
use zynq_rtl_flow.Bench.PeSeam.{check}
use zynq_rtl_flow.Bench.SparseSeam.Cases.{expect}
use zynq_rtl_flow.Bench.SparseSeam.Raw.{
  StreamSource, Sim, ports, drive, rising_edge, present_read, raw_read_dword, raw_bus,
}
use zynq_rtl_flow.Bench.SparseSeam.Raw.Steps.{drop_read, IsIdle, rising_edge-IsIdle}
use zynq_rtl_flow.Bench.SparseSeam.Raw.Ends.{delivered, raw_read_dword-ends}
use zynq_rtl_flow.Bench.SparseSeam.Raw.Registers.{read_cycle-free}
use zynq_rtl_flow.Bench.SparseSeam.Raw.Supply.{Supply, NoWrite, calm-ctrl, rest-edge}
use zynq_rtl_flow.Bench.SparseSeam.Raw.Check.{IsReady, IsIdle-NoWrite}
use zynq_rtl_flow.Bench.SparseSeam.Raw.Finish.{check-same}

-- The tile machine is idle with EN set, and what it reports.
pub record Rests (done : Bool) (acc skip : ℕ) (w : Wrapper) : Type 0 where
  pub no_tile : w.state ≡ s_idle
  pub no_start : w.ctrl.start_pulse ≡ false
  pub no_clear : w.ctrl.clear_pulse ≡ false
  pub enabled : w.ctrl.en_reg ≡ true
  pub done_is : w.done_q ≡ done
  pub acc_is : w.acc_q ≡ acc
  pub skip_is : w.skip_q ≡ skip

pub Rests-edge :
    {done : Bool} {acc skip : ℕ} (p : Ports) (w : Wrapper)
    → NoWrite p w
    → Rests done acc skip w
    → Rests done acc skip (aclk_edge p w)
Rests-edge p w n r =
    let (start, clear, en, _, _) = calm-ctrl p w n in
    let (idle, done, acc, skip) = rest-edge p w n.0 r.no_tile r.no_start r.no_clear in
    record {
      no_tile = idle;
      no_start = start;
      no_clear = clear;
      enabled = en ∙ r.enabled;
      done_is = done ∙ r.done_is;
      acc_is = acc ∙ r.acc_is;
      skip_is = skip ∙ r.skip_is;
    }

-- the register map between two tiles
abbrev pub rest_word : ℕ → Bool → ℕ → ℕ → ℕ
rest_word addr done acc skip =
    if addr == 0
    then 1397752064
    else if addr == 4
    then 4
    else if addr == 8
    then 2 * word_bit done
    else if addr == 12
    then acc
    else if addr == 16
    then skip
    else 0

ctrl-word :
    (s c e : Bool)
    → s ≡ false
    → c ≡ false
    → e ≡ true
    → word_bit s + 2 * word_bit c + 4 * word_bit e ≡ 4
ctrl-word s c e p q r = ground arith

rest-status :
    {done : Bool} {acc skip : ℕ} (p : Ports) (w : Wrapper)
    → NoWrite p w
    → Rests done acc skip w
    → status_word p w ≡ 2 * word_bit done
unfolding status_word
rest-status p w n r =
    let idle = r.no_tile in
    let start = r.no_start in let done = r.done_is in let (a, b, c, d, e) = n in ground arith

rest-word :
    {done : Bool} {acc skip : ℕ} (p : Ports) (w : Wrapper)
    → NoWrite p w
    → Rests done acc skip w
    → rd_mux p w ≡ rest_word p.lite.araddr done acc skip
unfolding rd_mux
rest-word p w n r =
    rw (rest-status p w n r, ctrl-word _ _ _ r.no_start r.no_clear r.enabled, r.acc_is, r.skip_is)
      refl

module _ (source : StreamSource) (lag : ℕ) (supply : Supply source lag) where
  open supply use {Holds, rests}

  -- Between two tiles, with no response pending, and what the wrapper reports.
  pub record IsRest (done : Bool) (acc skip : ℕ) (s : Sim source) : Type 0 where
    pub idle : IsIdle source s
    pub free : s.dut.read.rvalid_q ≡ false
    pub resting : Rests done acc skip s.dut
    pub slack : ℕ
    pub empty : Holds slack [] s.src

  pub rest-IsReady :
      {done : Bool} {acc skip : ℕ} {s : Sim source}
      → IsRest done acc skip s
      → IsReady source lag supply s
  rest-IsReady h = record {
    idle = h.idle;
    no_tile = h.resting.no_tile;
    no_start = h.resting.no_start;
    no_clear = h.resting.no_clear;
    enabled = h.resting.enabled;
    slack = h.slack;
    empty = h.empty;
  }

  -- Between two tiles a read returns its register of the map, and leaves the accelerator as it was.
  pub read-IsRest :
      (n addr : ℕ) {done : Bool} {acc skip : ℕ} (s : Sim source)
      → IsRest done acc skip s
      → (t : Sim source) × (raw_read_dword source (suc (suc (suc n))) addr s
          ≡ (ok (rest_word addr done acc skip), t))
        × IsRest done acc skip t
  unfolding rising_edge
  read-IsRest n addr {done} {acc} {skip} s h =
      let p = drive source (present_read addr) s in
      let s1 = rising_edge source p in
      let q = drive source drop_read s1 in
      let n1 : NoWrite (ports source p) p.dut = IsIdle-NoWrite source lag supply s h.idle in
      let (_, _, _, aw, w) = calm-ctrl (ports source p) p.dut n1 in
      let r1 = Rests-edge (ports source p) p.dut n1 h.resting in
      let r2 =
        Rests-edge (ports source q) q.dut (h.idle.running, h.idle.no_aw, h.idle.no_w, aw, w) r1 in
      let ends = raw_read_dword-ends source n addr s h.idle in
      let at_once = read_cycle-free source addr s h.free in
      let (same, idle, free) = (rw at_once at ends) in
      let e1 = (rests h.slack s.src h.empty).1 (tready s.dut) in
      (
        delivered source p,
        same ∙ ap (λ x. (ok x, delivered source p)) (rest-word (ports source p) p.dut n1 h.resting),
        record {
          idle = idle;
          free = free;
          resting = r2;
          slack = h.slack;
          empty = (rests h.slack s1.src e1).1 (tready s1.dut);
        },
      )

  -- the assertion that a register reads so
  pub expect-IsRest :
      (n addr value : ℕ) {done : Bool} {acc skip : ℕ} (s : Sim source)
      → rest_word addr done acc skip ≡ value
      → IsRest done acc skip s
      → (t : Sim source) × (expect (raw_bus source (suc (suc (suc n)))) addr value s ≡ (ok tt, t))
        × IsRest done acc skip t
  unfolding expect
  expect-IsRest n addr value {done} {acc} {skip} s same h =
      let (t, read, h') = read-IsRest n addr s h in
      (
        t,
        bind-ok (raw_read_dword source (suc (suc (suc n))) addr)
              (λ got. lift (check (got == value))) s t _ read
            ∙ check-same _ _ t same,
        h',
      )

  -- an edge between two tiles
  pub IsRest-edge :
      {done : Bool} {acc skip : ℕ} {s : Sim source}
      → IsRest done acc skip s
      → IsRest done acc skip (rising_edge source s)
  unfolding rising_edge
  IsRest-edge {s = s} h =
      let (idle, _, free) = rising_edge-IsIdle source s h.idle in
      record {
        idle = idle;
        free = free;
        resting =
            Rests-edge (ports source s) s.dut (IsIdle-NoWrite source lag supply s h.idle) h.resting;
        slack = h.slack;
        empty = (rests h.slack s.src h.empty).1 (tready s.dut);
      }

  -- the accumulator, as the testbench reads it
  pub acc-IsRest :
      (n : ℕ) {done : Bool} {acc skip : ℕ} (s : Sim source)
      → IsRest done acc skip s
      → (t : Sim source) × (read_acc (raw_bus source (suc (suc (suc n)))) s
          ≡ (ok (to_signed (pos acc) acc_w), t))
        × IsRest done acc skip t
  unfolding read_acc
  acc-IsRest n {done} {acc} {skip} s h =
      let (t, read, h') = read-IsRest n reg_acc s h in
      (
        t,
        bind-ok (raw_read_dword source (suc (suc (suc n))) reg_acc)
            (λ raw. return (to_signed (pos raw) acc_w)) s t _ read,
        h',
      )
