-- ===== src/Tests/AxiLite.antt =====
-- The AXI4-Lite channels of the wrappers over a write whose data comes before its address, and a read.
use zynq_rtl_flow.Base.{◌+◌, List, [], ◌∷◌, ◌++◌, map, length, Bool, true, false, ◌≡◌, refl}
use mathlib.Core.List.{foldl}
use zynq_rtl_flow.Rtl.AxiLite.{
  LiteMaster, WriteChannel, ReadChannel, next_write, next_read, reset_read,
}
use zynq_rtl_flow.Rtl.AxiLite.Writes.{
  at_rest, edge, IsOrderly, waiting_addr, waiting_data, bit_of, WriteFlow-in_order,
}
use zynq_rtl_flow.Rtl.AxiLite.Reads.{ReadFlow, waiting_word, ReadFlow-in_order}
use zynq_rtl_flow.Rtl.AxiLite.Reads
use zynq_rtl_flow.Rtl.ReluAxi.{ReluPorts, ReluAxi, relu_run}
use zynq_rtl_flow.Rtl.ReluAxi.Registers.{
  run_edges, addresses, payloads, writes, responses, registers, write_register, registers_in_order,
}
use zynq_rtl_flow.Bench.ReluSeam.Reset.{ReluSim}

abbrev pins : Bool → Bool → LiteMaster
pins aw w = record {
  awaddr = 12;
  awvalid = aw;
  wdata = 775;
  wstrb = 15;
  wvalid = w;
  bready = true;
  araddr = 12;
  arvalid = aw;
  rready = true;
}

-- a cycle of both wrappers' ports, with no beat
abbrev cycle : Bool → Bool → ReluPorts
cycle aw w = record {
  aresetn = true;
  lite = pins aw w;
  tdata = 0;
  tvalid = false;
  tlast = false;
  m_tready = true;
}

abbrev silent_channel : WriteChannel
silent_channel = record {
  aw_pend = false;
  w_pend = false;
  bvalid_q = false;
  aw_addr_q = 0;
  w_data_q = 0;
  w_strb_q = 0;
}

orderly : IsOrderly silent_channel
orderly = record { incomplete = refl; no_aw = refl; no_w = refl }

abbrev after_data : WriteChannel
unfolding next_write
after_data = next_write (pins false true) silent_channel

abbrev after_both : WriteChannel
unfolding next_write
after_both = next_write (pins true false) after_data

WriteFlow-in_order_example :
    IsOrderly after_both
    × (waiting_addr silent_channel ++ (12 ∷ []) ≡ (12 ∷ []) ++ waiting_addr after_both)
    × (waiting_data silent_channel ++ ((775, 15) ∷ [])
        ≡ ((775, 15) ∷ []) ++ waiting_data after_both)
    × (0 + 1 ≡ 0 + bit_of after_both.bvalid_q)
unfolding next_write
WriteFlow-in_order_example =
    WriteFlow-in_order {c = silent_channel} {d = after_both} {addrs = 12 ∷ []}
      {datas = (775, 15) ∷ []} {commits = (12, (775, 15)) ∷ []} {responses = 0} orderly
      (edge (pins false true) silent_channel after_both (12 ∷ []) [] ((12, (775, 15)) ∷ []) 0
        (edge (pins true false) after_data after_both [] [] [] 0 (at_rest after_both)))

abbrev answering : ReadChannel
unfolding next_read
answering = next_read (pins true false) 25 reset_read

ReadFlow-in_order_example : waiting_word reset_read ++ (25 ∷ []) ≡ [] ++ waiting_word answering
unfolding next_read
ReadFlow-in_order_example =
    ReadFlow-in_order {c = reset_read} {d = answering} {asked = 25 ∷ []} {returned = []}
      (Reads.edge (pins true false) 25 reset_read answering [] [] (Reads.at_rest answering))

abbrev begun : ReluAxi
begun = record {
  en_reg = true;
  slope_reg = 25;
  stage = record { out_valid_q = false; out_last_q = false; out_data_q = 0 };
  account = record { busy_q = false; done_q = true; beats_q = 0; count_q = 9 };
  write = silent_channel;
  read = record { rvalid_q = false; rdata_q = 0 };
}

abbrev cycles : List ReluPorts
cycles = cycle false true ∷ cycle true false ∷ cycle false false ∷ []

-- 775 leaves 7 in SLOPE
slope_written : registers (run_edges cycles begun) ≡ (true, 7)
unfolding relu_run
slope_written = refl

registers_in_order_example :
    let v = run_edges cycles begun in
    (registers v ≡ foldl write_register (registers begun) (writes cycles begun))
    × (waiting_addr begun.write ++ addresses cycles begun
        ≡ map (λ x. x.0) (writes cycles begun) ++ waiting_addr v.write)
    × (waiting_data begun.write ++ payloads cycles begun
        ≡ map (λ x. x.1) (writes cycles begun) ++ waiting_data v.write)
    × (bit_of begun.write.bvalid_q + length (writes cycles begun)
        ≡ responses cycles begun + bit_of v.write.bvalid_q)
registers_in_order_example = registers_in_order cycles begun orderly

abbrev powered : ReluSim
powered = record { pins = cycle false false; dut = begun }
