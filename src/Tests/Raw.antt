-- ===== src/Tests/Raw.antt =====
-- The theorems on RawAxiLite with a source that offers the head of its queue, from a simulation that
-- starts in the middle of things.
use zynq_rtl_flow.Base.{
  ℕ, List, [], ◌∷◌, ◌++◌, Bool, true, false, ◌≡◌, refl, ok, arith, if◌then◌else◌,
}
use zynq_rtl_flow.Effects.{◌>>=◌}
use zynq_rtl_flow.Rtl.Wrapper.{s_run, Wrapper, aclk_edge, rd_mux}
use zynq_rtl_flow.Bench.SparseSeam.Raw.{
  StreamSource, Sim, Beat, ports, drive, present_read, released, raw_read_dword, raw_write_dword,
}
use zynq_rtl_flow.Bench.SparseSeam.Raw.Steps.{IsIdle}
use zynq_rtl_flow.Bench.SparseSeam.Raw.Ends.{read_cycle, delivered, raw_read_dword-ends}
use zynq_rtl_flow.Bench.SparseSeam.Raw.Writes.{write_cycle, written}
use zynq_rtl_flow.Bench.SparseSeam.Raw.Cases.{bring_up}
use zynq_rtl_flow.Bench.SparseSeam.Raw.InFlight.{Silence, IsStill}
use zynq_rtl_flow.Bench.SparseSeam.Raw.Registers.{bring_up-IsReset, read-written_ctrl}

abbrev head_of : List ℕ → Beat
head_of [] = record { tdata = 0; tvalid = false; tlast = false }
head_of (w ∷ []) = record { tdata = w; tvalid = true; tlast = true }
head_of (w ∷ v ∷ words) = record { tdata = w; tvalid = true; tlast = false }

abbrev pop : Bool → List ℕ → List ℕ
pop ready [] = []
pop ready (w ∷ words) = if ready then words else w ∷ words

abbrev source : StreamSource
source = record {
  Source = List ℕ;
  offered = head_of;
  advance = pop;
  queue = λ words queued. queued ++ words;
}

abbrev silence : Silence source
silence = record {
  IsQuiet = λ words. words ≡ [];
  quiet-offered = λ words e. rw e refl;
  quiet-advance = λ ready words e. rw e refl;
}

abbrev pub wild : Wrapper
wild = record {
  state = s_run;
  ctrl = record { start_pulse = true; clear_pulse = true; en_reg = false };
  done_q = true;
  acc_q = 77;
  skip_q = 3;
  write = record {
    aw_pend = true;
    w_pend = false;
    bvalid_q = true;
    aw_addr_q = 4;
    w_data_q = 9;
    w_strb_q = 1;
  };
  read = record { rvalid_q = true; rdata_q = 5 };
  pe = record { acc = 12; skip_count = 2; valid_out = true };
}

abbrev start_state : Sim source
start_state = record { aresetn = true; lite = released; src = []; dut = wild }

abbrev fresh : Sim source
fresh = bring_up source start_state

fresh-IsIdle : IsIdle source fresh
fresh-IsIdle = (bring_up-IsReset source start_state).idle

fresh-IsStill : IsStill source silence fresh
unfolding bring_up aclk_edge
fresh-IsStill = record {
  running = refl;
  well_formed = refl;
  not_latching = λ e. ground arith;
  quiet = refl;
}

raw_read_dword-ends_example :
    let a = read_cycle source 8 fresh in
    (raw_read_dword source 3 8 fresh ≡ (ok (rd_mux (ports source a) a.dut), delivered source a))
    × IsIdle source (delivered source a)
    × ((delivered source a).dut.read.rvalid_q ≡ false)
raw_read_dword-ends_example = raw_read_dword-ends source 0 8 fresh fresh-IsIdle

read-written_ctrl_example :
    (raw_write_dword source 1 4 5 >>= λ _. raw_read_dword source 3 4) fresh ≡ (
      ok 5,
      delivered source
          (drive source (present_read 4) (written source (write_cycle source 4 5 fresh))),
    )
read-written_ctrl_example = read-written_ctrl source 0 5 fresh fresh-IsIdle
