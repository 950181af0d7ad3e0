-- ===== src/Bench/SparseSeam/Raw/Reads.antt =====
-- The reads of the testbench while a tile is on its way through the wrapper, and behind it.
use zynq_rtl_flow.Base.{ℕ, suc, ◌+◌, ◌-◌, ◌*◌, Bool, true, false, ◌≡◌, arith, ok}
use zynq_rtl_flow.Base.Int.{ℤ}
use zynq_rtl_flow.Rtl.AxiLite.{LiteMaster}
use zynq_rtl_flow.Rtl.Wrapper.{s_idle, Ports, Wrapper, rd_mux, status_word, word_bit}
use zynq_rtl_flow.Bench.SparseSeam.{is_done}
use zynq_rtl_flow.Bench.SparseSeam.Raw.{
  StreamSource, Sim, ports, drive, rising_edge, present_read, raw_read_dword,
}
use zynq_rtl_flow.Bench.SparseSeam.Raw.Steps.{drop_read, IsIdle}
use zynq_rtl_flow.Bench.SparseSeam.Raw.Ends.{delivered, raw_read_dword-ends}
use zynq_rtl_flow.Bench.SparseSeam.Raw.Registers.{read_cycle-free}
use zynq_rtl_flow.Bench.SparseSeam.Raw.Supply.{
  Supply, NoWrite, IsCalm, IsCalm-edge, Ahead, starting, clearing, running, latching, complete,
}
use zynq_rtl_flow.Bench.SparseSeam.Raw.Advance.{Ahead-edge}

no-done : (b d : Bool) → d ≡ false → is_done (word_bit b + 2 * word_bit d) ≡ false
no-done b d e = ground arith

-- STATUS of a completed tile
pub status_complete :
    (p : Ports) (w : Wrapper)
    → NoWrite p w
    → w.state ≡ s_idle
    → w.ctrl.start_pulse ≡ false
    → w.done_q ≡ true
    → status_word p w ≡ 2
unfolding status_word
status_complete p w n i s d = let a = n.1 in ground arith

pub status-low : (p : Ports) (w : Wrapper) → w.done_q ≡ false → is_done (status_word p w) ≡ false
unfolding status_word
status-low p w e = no-done _ _ (ground arith)

pub status-taken :
    (p : Ports) (w : Wrapper) → w.ctrl.start_pulse ≡ true → is_done (status_word p w) ≡ false
unfolding status_word
status-taken p w e = no-done _ _ (ground arith)

pub rd_mux-acc : (p : Ports) (w : Wrapper) → p.lite.araddr ≡ 12 → rd_mux p w ≡ w.acc_q
unfolding rd_mux
rd_mux-acc p w e = ground arith

pub rd_mux-skip : (p : Ports) (w : Wrapper) → p.lite.araddr ≡ 16 → rd_mux p w ≡ w.skip_q
unfolding rd_mux
rd_mux-skip p w e = ground arith

module _ (source : StreamSource) (lag : ℕ) (supply : Supply source lag) where
  open supply use {Holds}

  -- The master is idle with no response pending, and a tile is at most so many edges from its end.
  pub record IsPolling (acc : ℤ) (skip m : ℕ) (s : Sim source) : Type 0 where
    pub idle : IsIdle source s
    pub free : s.dut.read.rvalid_q ≡ false
    pub calm : IsCalm source lag supply s
    pub ahead : Ahead source lag supply acc skip m s

  pub drive-Ahead :
      (f : LiteMaster → LiteMaster) {acc : ℤ} {skip m : ℕ} {s : Sim source}
      → Ahead source lag supply acc skip m s
      → Ahead source lag supply acc skip m (drive source f s)
  drive-Ahead f (starting m d word words s a b h g le) =
      starting m d word words (drive source f s) a b h g le
  drive-Ahead f (clearing m d word words s a b h g le) =
      clearing m d word words (drive source f s) a b h g le
  drive-Ahead f (running m d word words s a b h partial skips held g le) =
      running m d word words (drive source f s) a b h partial skips held g le
  drive-Ahead f (latching m d s a b h held le) = latching m d (drive source f s) a b h held le
  drive-Ahead f (complete m d s a b c h i j) = complete m d (drive source f s) a b c h i j

  -- the address pins of a read leave the wrapper calm
  asking-IsCalm :
      (addr : ℕ) (s : Sim source)
      → IsCalm source lag supply s
      → IsCalm source lag supply (drive source (present_read addr) s)
  asking-IsCalm addr s c = record {
    no_write = c.no_write;
    no_clear = c.no_clear;
    enabled = c.enabled;
  }

  dropped-IsCalm :
      (s : Sim source)
      → IsCalm source lag supply s
      → IsCalm source lag supply (drive source drop_read s)
  dropped-IsCalm s c = record { no_write = c.no_write; no_clear = c.no_clear; enabled = c.enabled }

  -- the state behind a read
  abbrev pub behind_read : ℕ → Sim source → Sim source
  behind_read addr s = delivered source (drive source (present_read addr) s)

  -- A read takes two edges, and returns what its address selects at once.
  pub read-IsPolling :
      (n addr : ℕ) {acc : ℤ} {skip m : ℕ} (s : Sim source)
      → IsPolling acc skip m s
      → (raw_read_dword source (suc (suc (suc n))) addr s ≡ (
        ok (rd_mux (ports source (drive source (present_read addr) s)) s.dut),
        behind_read addr s,
      ))
        × IsPolling acc skip (m - 1 - 1) (behind_read addr s)
  read-IsPolling n addr {acc} {skip} {m} s h =
      let p = drive source (present_read addr) s in
      let q = drive source drop_read (rising_edge source p) in
      let c1 = asking-IsCalm addr s h.calm in
      let c2 = (IsCalm-edge source lag supply p c1).0 in
      let c3 = dropped-IsCalm (rising_edge source p) c2 in
      let a2 = Ahead-edge source lag supply c1 (drive-Ahead (present_read addr) h.ahead) in
      let a3 = Ahead-edge source lag supply c3 (drive-Ahead drop_read a2) in
      let ends = raw_read_dword-ends source n addr s h.idle in
      let at_once = read_cycle-free source addr s h.free in
      let (same, idle, free) = (rw at_once at ends) in
      (
        same,
        record {
          idle = idle;
          free = free;
          calm = (IsCalm-edge source lag supply q c3).0;
          ahead = a3;
        },
      )
