-- ===== src/Bench/SparseSeam/Raw/Watched.antt =====
-- What the tests of tb/sparse_cnn_axi/tb_sparse_cnn_axi.py that watch the clock use of the simulator,
-- on the wrapper itself: RawAxiLite, the edges, the pins, the stream source, and a _BeatCounter.
use zynq_rtl_flow.Base.{ℕ, suc, List, [], Bool, true, false, ◌&&◌, if◌then◌else◌}
use zynq_rtl_flow.Rtl.Wrapper.{tready}
use zynq_rtl_flow.Bench.SparseSeam.Clocked.{Clocked}
use zynq_rtl_flow.Bench.SparseSeam.Raw.{StreamSource, Sim, rising_edge, raw_bus}
use zynq_rtl_flow.Bench.SparseSeam.Raw.Supply.{Supply}

-- what else a test does to AxiStreamSource, and what a change of its reset does
pub record Controls (source : StreamSource) : Type 0 where
  pub set_pauses : (ℕ → Bool) → source.Source → source.Source
  pub clear : source.Source → source.Source
  pub on_reset : Bool → source.Source → source.Source

-- What the source keeps to then: a pause generator and a clear leave a source that holds nothing so,
-- and a reset drops the frame that is being sent.
pub record Obeys (source : StreamSource) (lag : ℕ) (supply : Supply source lag)
    (controls : Controls source) : Type 0 where
  pub pauses :
      (f : ℕ → Bool) (d : ℕ) (x : source.Source)
      → supply.Holds d [] x
      → supply.Holds d [] (controls.set_pauses f x)
  pub clears :
      (d : ℕ) (x : source.Source) → supply.Holds d [] x → supply.Holds d [] (controls.clear x)
  pub aborts :
      (ready : Bool) (d : ℕ) (words : List ℕ) (x : source.Source)
      → supply.Holds d words x
      → supply.Holds d [] (controls.on_reset false (source.advance ready x))
  pub releases :
      (d : ℕ) (x : source.Source)
      → supply.Holds d [] x
      → supply.Holds d [] (controls.on_reset true x)

module _ (source : StreamSource) where
  -- the source, with a _BeatCounter once it is started
  pub record CountedSource : Type 0 where
    pub inner : source.Source
    pub is_started : Bool
    pub total : ℕ

  -- `_BeatCounter.run` over an edge
  abbrev pub counted_edge : Bool → CountedSource → CountedSource
  counted_edge ready c = record {
    inner = source.advance ready c.inner;
    is_started = c.is_started;
    total =
        if c.is_started && ((source.offered c.inner).tvalid && ready) then suc c.total else c.total;
  }

  abbrev pub on_inner : (source.Source → source.Source) → CountedSource → CountedSource
  on_inner f c = record c { inner = f c.inner }

  abbrev pub counted : StreamSource
  counted = record {
    Source = CountedSource;
    offered = λ c. source.offered c.inner;
    advance = counted_edge;
    queue = λ words c. on_inner (source.queue words) c;
  }

  abbrev pub to_source : (source.Source → source.Source) → Sim counted → Sim counted
  to_source f s = record s { src = on_inner f s.src }

  -- `count_beats`
  unfoldable pub start_counter : Sim counted → Sim counted
  start_counter s = record s { src = record s.src { is_started = true; total = 0 } }

  module _ (controls : Controls source) where
    unfoldable pub drive_reset : Bool → Sim counted → Sim counted
    drive_reset level s = record (to_source (controls.on_reset level) s) { aresetn = level }

    abbrev pub watched : ℕ → Clocked
    watched rounds = record {
      bus = raw_bus counted rounds;
      rising_edge = rising_edge counted;
      two_periods = λ s. rising_edge counted (rising_edge counted s);
      s_axis_tready = λ s. tready s.dut;
      drive_aresetn = drive_reset;
      set_pause_generator = λ f s. to_source (controls.set_pauses f) s;
      clear_source = λ s. to_source controls.clear s;
      count_beats = start_counter;
      total = λ s. s.src.total;
    }

  -- The counter leaves what the source keeps to.
  abbrev pub counted-Supply : (lag : ℕ) → Supply source lag → Supply counted lag
  counted-Supply lag supply = record {
    Holds = λ d words c. supply.Holds d words c.inner;
    rests = λ d c h. supply.rests d c.inner h;
    supplies = λ d word words c h. supply.supplies d word words c.inner h;
    queues = λ d words c h. supply.queues d words c.inner h;
  }
