-- ===== src/Rtl/AxiLite.antt =====
-- The AXI4-Lite slave channels, which rtl/sparse_cnn_axi.sv and rtl/relu_axi.sv share word for word.
-- A port or register is its bits, a number, or a truth value where it is one bit; the responses are
-- always OKAY and the protection bits are not used.
pub mod Writes
pub mod Reads
use zynq_rtl_flow.Base.{ℕ, Bool, true, false, ◌&&◌, ◌||◌, not, if◌then◌else◌}

-- what a master drives
pub record LiteMaster : Type 0 where
  pub awaddr : ℕ
  pub awvalid : Bool
  pub wdata : ℕ
  pub wstrb : ℕ
  pub wvalid : Bool
  pub bready : Bool
  pub araddr : ℕ
  pub arvalid : Bool
  pub rready : Bool

-- the registers of the write channel
pub record WriteChannel : Type 0 where
  pub aw_pend : Bool
  pub w_pend : Bool
  pub bvalid_q : Bool
  pub aw_addr_q : ℕ
  pub w_data_q : ℕ
  pub w_strb_q : ℕ

-- the registers of the read channel
pub record ReadChannel : Type 0 where
  pub rvalid_q : Bool
  pub rdata_q : ℕ

abbrev pub awready : WriteChannel → Bool
awready c = not c.aw_pend && not c.bvalid_q

abbrev pub wready : WriteChannel → Bool
wready c = not c.w_pend && not c.bvalid_q

abbrev pub arready : ReadChannel → Bool
arready c = not c.rvalid_q

abbrev pub aw_fire : LiteMaster → WriteChannel → Bool
aw_fire m c = m.awvalid && awready c

abbrev pub w_fire : LiteMaster → WriteChannel → Bool
w_fire m c = m.wvalid && wready c

abbrev pub wr_commit : LiteMaster → WriteChannel → Bool
wr_commit m c = (c.aw_pend || aw_fire m c) && (c.w_pend || w_fire m c)

abbrev pub wr_addr : LiteMaster → WriteChannel → ℕ
wr_addr m c = if c.aw_pend then c.aw_addr_q else m.awaddr

abbrev pub wr_data : LiteMaster → WriteChannel → ℕ
wr_data m c = if c.w_pend then c.w_data_q else m.wdata

abbrev pub wr_strb : LiteMaster → WriteChannel → ℕ
wr_strb m c = if c.w_pend then c.w_strb_q else m.wstrb

-- an edge under reset: the captured address, data and strobe keep their values
unfoldable pub reset_write : WriteChannel → WriteChannel
reset_write c = record c { aw_pend = false; w_pend = false; bvalid_q = false }

-- an edge out of reset
unfoldable pub next_write : LiteMaster → WriteChannel → WriteChannel
next_write m c = record {
  aw_pend = not (wr_commit m c) && (aw_fire m c || c.aw_pend);
  w_pend = not (wr_commit m c) && (w_fire m c || c.w_pend);
  bvalid_q = if c.bvalid_q && m.bready then false else if wr_commit m c then true else c.bvalid_q;
  aw_addr_q = if aw_fire m c then m.awaddr else c.aw_addr_q;
  w_data_q = if w_fire m c then m.wdata else c.w_data_q;
  w_strb_q = if w_fire m c then m.wstrb else c.w_strb_q;
}

abbrev pub reset_read : ReadChannel
reset_read = record { rvalid_q = false; rdata_q = 0 }

-- an edge out of reset, for the word that the address selects
unfoldable pub next_read : LiteMaster → ℕ → ReadChannel → ReadChannel
next_read m rd_mux c = record {
  rvalid_q =
      if m.arvalid && arready c then true else if c.rvalid_q && m.rready then false else c.rvalid_q;
  rdata_q = if m.arvalid && arready c then rd_mux else c.rdata_q;
}
