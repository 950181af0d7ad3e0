-- ===== src/Bench/SparseSeam/Raw.antt =====
-- RawAxiLite of tb/sparse_cnn_axi/tb_sparse_cnn_axi.py: a master that watches the clock, on the
-- simulated wrapper. What the driver assigns between two edges holds up to the next; a coroutine is
-- advanced once a clock edge, by what it read before the edge.
pub mod Steps
pub mod Writes
pub mod Ends
pub mod Cases
pub mod InFlight
pub mod Registers
pub mod Supply
pub mod Progress
pub mod Advance
pub mod Reads
pub mod Polling
pub mod Check
pub mod Pass
pub mod Tiles
pub mod Awaits
pub mod Racy
pub mod Race
pub mod Watched
pub mod Finish
pub mod Loaded
pub mod NoBeats
pub mod Underway
pub mod Stall
pub mod Rest
pub mod Cleared
pub mod MidStream
pub mod Aborted
pub mod MidTile
pub mod Counting
pub mod Paused
pub mod ClearMid
pub mod Restart
pub mod Split
pub mod Leak
use zynq_rtl_flow.Base.{
  ℕ, zero, suc, List, Bool, true, false, ◌&&◌, ◌||◌, not, ok, err, no_end, if◌then◌else◌,
}
use zynq_rtl_flow.Effects.{M, ◌>>=◌, modify}
use zynq_rtl_flow.Rtl.AxiLite.{LiteMaster, awready, wready, arready}
use zynq_rtl_flow.Rtl.Wrapper.{Ports, Wrapper, aclk_edge, takes_beat, tready}
use zynq_rtl_flow.Bench.SparseSeam.{Bus}

-- what a stream source drives
pub record Beat : Type 0 where
  pub tdata : ℕ
  pub tvalid : Bool
  pub tlast : Bool

-- AxiStreamSource of cocotbext.axi: its pins, what an edge with the slave ready or not makes of it,
-- and `send` of a frame
pub record StreamSource : Type 1 where
  pub Source : Type 0
  pub offered : Source → Beat
  pub advance : Bool → Source → Source
  pub queue : List ℕ → Source → Source

-- the pins of the AXI4-Lite port as RawAxiLite leaves them when it is built
abbrev pub released : LiteMaster
released = record {
  awaddr = 0;
  awvalid = false;
  wdata = 0;
  wstrb = 15;
  wvalid = false;
  bready = true;
  araddr = 0;
  arvalid = false;
  rready = true;
}

abbrev pub present_write : ℕ → ℕ → LiteMaster → LiteMaster
present_write addr value m = record m {
  awaddr = addr;
  awvalid = true;
  wdata = value;
  wstrb = 15;
  wvalid = true;
}

abbrev pub present_read : ℕ → LiteMaster → LiteMaster
present_read addr m = record m { araddr = addr; arvalid = true }

-- `aw_done` and `w_done` of a write, or what of it fires in a cycle
pub record Settling : Type 0 where
  pub aw : Bool
  pub w : Bool

-- a read: presented, accepted, or with its data
pub data Reading : Type 0 where
  asking waiting : Reading
  finished : ℕ → Reading

module _ (source : StreamSource) where
  open source use {Source, offered, advance, queue}

  -- the driven pins, the source behind its pins, and the wrapper
  pub record Sim : Type 0 where
    pub aresetn : Bool
    pub lite : LiteMaster
    pub src : Source
    pub dut : Wrapper

  abbrev pub ports : Sim → Ports
  ports s = record {
    aresetn = s.aresetn;
    lite = s.lite;
    tdata = (offered s.src).tdata;
    tvalid = (offered s.src).tvalid;
    tlast = (offered s.src).tlast;
  }

  abbrev pub drive : (LiteMaster → LiteMaster) → Sim → Sim
  drive f s = record s { lite = f s.lite }

  -- `await RisingEdge(self.clk)`
  unfoldable pub rising_edge : Sim → Sim
  rising_edge s = record s { src = advance (tready s.dut) s.src; dut = aclk_edge (ports s) s.dut }

  -- `_BeatCounter.run` over an edge
  unfoldable pub count_beat : Sim → ℕ → ℕ
  count_beat s total = if takes_beat (ports s) s.dut then suc total else total

  -- `aw_fires` and `w_fires`
  abbrev pub fires : Settling → Sim → Settling
  fires done s = record {
    aw = not done.aw && awready s.dut.write;
    w = not done.w && wready s.dut.write;
  }

  abbrev pub plus : Settling → Settling → Settling
  plus done fire = record { aw = fire.aw || done.aw; w = fire.w || done.w }

  abbrev pub withdraw : Settling → LiteMaster → LiteMaster
  withdraw fire m = record m { awvalid = not fire.aw && m.awvalid; wvalid = not fire.w && m.wvalid }

  -- `while not (aw_done and w_done)`, for at most so many rounds
  unfoldable pub settle_write : ℕ → Settling → M Sim (Unit {0})
  unfolding rising_edge
  settle_write zero done s = (if done.aw && done.w then ok tt else err no_end, s)
  settle_write (suc n) done s =
      let fire = fires done s in
      let rest = settle_write n (plus done fire) (drive (withdraw fire) (rising_edge s)) in
      if done.aw && done.w then (ok tt, s) else rest

  unfoldable pub raw_write_dword : ℕ → ℕ → ℕ → M Sim (Unit {0})
  unfolding settle_write
  raw_write_dword rounds addr value s =
      settle_write rounds (record { aw = false; w = false })
        (drive (present_write addr value) (rising_edge s))

  -- what a read becomes over an edge, by what it reads before it
  abbrev pub read_on : Sim → Reading → Reading
  read_on s asking = if arready s.dut.read then waiting else asking
  read_on s waiting = if s.dut.read.rvalid_q then finished s.dut.read.rdata_q else waiting
  read_on s (finished got) = finished got

  -- `arvalid` behind an edge: dropped once the address was accepted
  abbrev pub ask : Sim → Reading → LiteMaster → LiteMaster
  ask s asking m = record m { arvalid = not (arready s.dut.read) && m.arvalid }
  ask s _ m = m

  -- both `while True` loops of a read, for at most so many rounds together
  unfoldable pub read_loop : ℕ → Reading → M Sim ℕ
  unfolding rising_edge
  read_loop n (finished got) s = (ok got, s)
  read_loop zero _ s = (err no_end, s)
  read_loop (suc n) reading s =
      read_loop n (read_on s reading) (drive (ask s reading) (rising_edge s))

  unfoldable pub raw_read_dword : ℕ → ℕ → M Sim ℕ
  unfolding read_loop
  raw_read_dword rounds addr s = read_loop rounds asking (drive (present_read addr) s)

  -- the write that settles as a task of its own while the read is awaited; then the write is awaited
  unfoldable pub race : ℕ → Settling → Reading → M Sim ℕ
  unfolding settle_write
  race n done (finished got) s = (settle_write n done >>= λ _ t. (ok got, t)) s
  race zero done _ s = (err no_end, s)
  race (suc n) done reading s =
      let fire = fires done s in
      race n (plus done fire) (read_on s reading)
        (drive (λ m. ask s reading (withdraw fire m)) (rising_edge s))

  unfoldable pub write_read_same_cycle : ℕ → ℕ → ℕ → ℕ → M Sim ℕ
  unfolding race
  write_read_same_cycle rounds waddr value raddr s =
      race rounds (record { aw = false; w = false }) asking
        (drive (λ m. present_read raddr (present_write waddr value m)) (rising_edge s))

  -- the masters that the testbench takes, on the wrapper itself
  abbrev pub raw_bus : ℕ → Bus
  raw_bus rounds = record {
    State = Sim;
    read_dword = raw_read_dword rounds;
    write_dword = raw_write_dword rounds;
    send_frame = λ words. modify (λ s. record s { src = queue words s.src });
  }
