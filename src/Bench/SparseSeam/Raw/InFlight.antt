-- ===== src/Bench/SparseSeam/Raw/InFlight.antt =====
-- The reads of STATUS that race a START, on the wrapper itself.
use zynq_rtl_flow.Base.{
  ℕ, Bool, zero, suc, true, false, ◌≡◌, ◌≢◌, inr, refl, ◌∙◌, arith, ok, if◌then◌else◌,
}
use zynq_rtl_flow.Effects.{◌>>=◌}
use zynq_rtl_flow.Effects.Laws.{bind-ok}
use zynq_rtl_flow.Rtl.AxiLite.{LiteMaster}
use zynq_rtl_flow.Rtl.Wrapper.{s_latch, Wrapper, Ports, aclk_edge, rd_mux, start_taken}
use zynq_rtl_flow.Rtl.Wrapper.Status.{
  rd_mux-status, IsWellFormed, InFlight, aclk_edge-IsWellFormed, edge-InFlight, taken-InFlight,
  taken-Pattern, flight-Pattern, Pattern-accepted,
}
use zynq_rtl_flow.Bench.SparseSeam.{assert_tile_in_flight}
use zynq_rtl_flow.Bench.SparseSeam.Raw.{
  StreamSource, Sim, ports, drive, rising_edge, present_read, present_write, withdraw,
  write_read_same_cycle, raw_read_dword,
}
use zynq_rtl_flow.Bench.SparseSeam.Raw.Steps.{drop_read, settled, IsIdle, rising_edge-IsIdle}
use zynq_rtl_flow.Bench.SparseSeam.Raw.Ends.{read_cycle, delivered, raw_read_dword-ends}
use zynq_rtl_flow.Bench.SparseSeam.Raw.Race.{race_cycle, raced, write_read_same_cycle-ends}
use zynq_rtl_flow.Bench.SparseSeam.Raw.Cases.{reads_in_flight, racing_reads}

-- What a stream source with no frame in its queue keeps to: it offers no beat.
pub record Silence (source : StreamSource) : Type 1 where
  pub IsQuiet : source.Source → Type 0
  pub quiet-offered : (x : source.Source) → IsQuiet x → (source.offered x).tvalid ≡ false
  pub quiet-advance :
      (ready : Bool) (x : source.Source) → IsQuiet x → IsQuiet (source.advance ready x)

-- Without a beat the tile machine does not come to latch.
silent-edge :
    (p : Ports) (w : Wrapper)
    → p.tvalid ≡ false
    → w.state ≢ s_latch
    → (aclk_edge p w).state ≢ s_latch
unfolding aclk_edge
silent-edge p w t h e = ground arith

pub either : {A : Type 0} (P : A → Type 0) (b : Bool) {x y : A} → P x → P y → P (if b then x else y)
either P true p q = p
either P false p q = q

module _ (source : StreamSource) (silence : Silence source) where
  open silence use {IsQuiet, quiet-offered, quiet-advance}

  -- No beat comes and no result is about to be latched, out of reset.
  pub record IsStill (s : Sim source) : Type 0 where
    pub running : s.aresetn ≡ true
    pub well_formed : IsWellFormed s.dut
    pub not_latching : s.dut.state ≢ s_latch
    pub quiet : IsQuiet s.src

  rising_edge-IsStill : (s : Sim source) → IsStill s → IsStill (rising_edge source s)
  unfolding rising_edge
  rising_edge-IsStill s i = record {
    running = i.running;
    well_formed = aclk_edge-IsWellFormed (ports source s) s.dut (inr i.well_formed);
    not_latching = silent-edge (ports source s) s.dut (quiet-offered s.src i.quiet) i.not_latching;
    quiet = quiet-advance _ s.src i.quiet;
  }

  -- Still, with a tile in flight.
  abbrev pub Flies : Sim source → Type 0
  Flies s = IsStill s × InFlight s.dut

  rising_edge-Flies : (s : Sim source) → Flies s → Flies (rising_edge source s)
  unfolding rising_edge
  rising_edge-Flies s (i, f) =
      (rising_edge-IsStill s i, edge-InFlight (ports source s) s.dut i.running i.not_latching f)

  -- the driven pins of the master do not matter
  drive-IsStill :
      (f : LiteMaster → LiteMaster) (s : Sim source) → IsStill s → IsStill (drive source f s)
  drive-IsStill f s i = record {
    running = i.running;
    well_formed = i.well_formed;
    not_latching = i.not_latching;
    quiet = i.quiet;
  }

  drive-Flies : (f : LiteMaster → LiteMaster) (s : Sim source) → Flies s → Flies (drive source f s)
  drive-Flies f s (i, h) = (drive-IsStill f s i, h)

  read_cycle-Flies : (addr : ℕ) (s : Sim source) → Flies s → Flies (read_cycle source addr s)
  read_cycle-Flies addr s f =
      let g = drive-Flies (present_read addr) s f in
      either Flies s.dut.read.rvalid_q (rising_edge-Flies (drive source (present_read addr) s) g) g

  read_cycle-araddr : (addr : ℕ) (s : Sim source) → (read_cycle source addr s).lite.araddr ≡ addr
  unfolding rising_edge
  read_cycle-araddr addr s =
      either (λ t. t.lite.araddr ≡ addr) s.dut.read.rvalid_q
        {x = rising_edge source (drive source (present_read addr) s)}
        {y = drive source (present_read addr) s} refl refl

  delivered-Flies : (s : Sim source) → Flies s → Flies (delivered source s)
  delivered-Flies s f =
      let t = rising_edge source s in
      rising_edge-Flies (drive source drop_read t) (drive-Flies drop_read t (rising_edge-Flies s f))

  -- STATUS read while a tile flies
  reads_in_flight-once :
      (n k : ℕ) (s : Sim source)
      → IsIdle source s
      → Flies s
      → reads_in_flight source (suc (suc (suc n))) (suc k) s
        ≡ reads_in_flight source (suc (suc (suc n))) k (delivered source (read_cycle source 8 s))
  unfolding reads_in_flight
  reads_in_flight-once n k s i f =
      let a = read_cycle source 8 s in
      let word = rd_mux (ports source a) a.dut in
      let (still, flight) = read_cycle-Flies 8 s f in
      let pattern =
        rd_mux-status (ports source a) a.dut (read_cycle-araddr 8 s)
        ∙ flight-Pattern (ports source a) a.dut still.well_formed flight in
      let rest = λ (_ : Unit {0}). reads_in_flight source (suc (suc (suc n))) k in
      bind-ok (raw_read_dword source (suc (suc (suc n))) 8)
        (λ status. assert_tile_in_flight status >>= rest) s (delivered source a) word
        ((raw_read_dword-ends source n 8 s i).0)
      ∙ bind-ok (assert_tile_in_flight word) rest (delivered source a) (delivered source a) tt
          (Pattern-accepted word (delivered source a) pattern)

  -- what else holds of a state and is kept by a read of STATUS holds behind the reads
  reads_in_flight-pass :
      (Kept : Sim source → Type 0) (n k : ℕ) (s : Sim source)
      → ((u : Sim source)
          → IsIdle source u
          → Kept u
          → Kept (delivered source (read_cycle source 8 u)))
      → IsIdle source s
      → Flies s
      → Kept s
      → (t : Sim source) × (reads_in_flight source (suc (suc (suc n))) k s ≡ (ok tt, t))
        × IsIdle source t
        × Flies t
        × Kept t
  unfolding reads_in_flight
  reads_in_flight-pass Kept n zero s keeps i f h = (s, refl, i, f, h)
  reads_in_flight-pass Kept n (suc k) s keeps i f h =
      let a = read_cycle source 8 s in
      let ends = raw_read_dword-ends source n 8 s i in
      let (t, p, j, g, h') =
        reads_in_flight-pass Kept n k (delivered source a) keeps ends.1
          (delivered-Flies a (read_cycle-Flies 8 s f)) (keeps s i h) in
      (t, reads_in_flight-once n k s i f ∙ p, j, g, h')

  -- the write of EN and START with the read of STATUS
  abbrev pub start_cycle : Sim source → Sim source
  start_cycle s = race_cycle source 4 5 8 s

  start_cycle-taken :
      (s : Sim source)
      → IsIdle source s
      → start_taken (ports source (start_cycle s)) (start_cycle s).dut ≡ true
  start_cycle-taken s i =
      let (j, b, _) = rising_edge-IsIdle source s i in
      let aw = j.aw_free in let w = j.w_free in ground arith

  abbrev drop_both : LiteMaster → LiteMaster
  drop_both m = drop_read (withdraw source settled m)

  raced-Flies :
      (c : Sim source)
      → IsStill c
      → start_taken (ports source c) c.dut ≡ true
      → Flies (raced source c)
  unfolding rising_edge
  raced-Flies c i h =
      let t = rising_edge source c in
      let flight = taken-InFlight (ports source c) c.dut i.running i.not_latching h in
      rising_edge-Flies (drive source drop_both t)
        (drive-Flies drop_both t (rising_edge-IsStill c i, flight))

  -- On the wrapper, from an idle master, an empty stream and a tile machine that is not about to
  -- latch, whatever tile completed before: the STATUS read sampled with the write of START and the
  -- eight reads behind it all end, and all pass the assertion that a tile is in flight.
  pub racing_reads-pass :
      (Kept : Sim source → Type 0) (n : ℕ) (s : Sim source)
      → ((u : Sim source)
          → IsIdle source u
          → Kept u
          → Kept (delivered source (read_cycle source 8 u)))
      → IsIdle source s
      → IsStill s
      → Kept (raced source (start_cycle s))
      → (t : Sim source) × (racing_reads source (suc (suc (suc n))) s ≡ (ok tt, t))
        × IsIdle source t
        × Flies t
        × Kept t
  unfolding racing_reads
  racing_reads-pass Kept n s keeps i still h =
      let rounds = suc (suc (suc n)) in
      let presented = λ (m : LiteMaster). present_read 8 (present_write 4 5 m) in
      let c = start_cycle s in
      let word = rd_mux (ports source c) c.dut in
      let taken = start_cycle-taken s i in
      let ends = write_read_same_cycle-ends source (suc n) 4 5 8 s i in
      let pattern =
        rd_mux-status (ports source c) c.dut refl ∙ taken-Pattern (ports source c) c.dut taken in
      let flies =
        raced-Flies c (drive-IsStill presented (rising_edge source s) (rising_edge-IsStill s still))
          taken in
      let (t, p, j, f, h') = reads_in_flight-pass Kept n 8 (raced source c) keeps ends.1 flies h in
      let rest = λ (_ : Unit {0}). reads_in_flight source rounds 8 in
      (
        t,
        bind-ok (write_read_same_cycle source rounds 4 5 8)
              (λ racing. assert_tile_in_flight racing >>= rest) s (raced source c) word ends.0
            ∙ (bind-ok (assert_tile_in_flight word) rest (raced source c) (raced source c) tt
                  (Pattern-accepted word (raced source c) pattern)
                ∙ p),
        j,
        f,
        h',
      )
