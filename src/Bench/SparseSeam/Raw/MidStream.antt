-- ===== src/Bench/SparseSeam/Raw/MidStream.antt =====
-- The reset of test_reset_mid_stream of tb/sparse_cnn_axi/tb_sparse_cnn_axi.py, in the middle of a tile.
use mathlib.Core.Path.{subst}
use zynq_rtl_flow.Base.{
  ℕ, zero, suc, List, [], ◌∷◌, Bool, false, true, ◌≡◌, inl, inr, refl, sym, arith,
}
use zynq_rtl_flow.Base.Int.{ℤ}
use zynq_rtl_flow.Rtl.AxiLite.{LiteMaster}
use zynq_rtl_flow.Rtl.Wrapper.{Ports, Wrapper, aclk_edge, tready}
use zynq_rtl_flow.Bench.SparseSeam.Clocked.{wait_rising}
use zynq_rtl_flow.Bench.SparseSeam.Raw.{StreamSource, Sim, ports, rising_edge}
use zynq_rtl_flow.Bench.SparseSeam.Raw.Steps.{IsIdle, rising_edge-IsIdle}
use zynq_rtl_flow.Bench.SparseSeam.Raw.Supply.{
  Supply, Ahead, starting, clearing, running, latching, complete,
}
use zynq_rtl_flow.Bench.SparseSeam.Raw.Watched.{
  Controls, Obeys, counted, to_source, drive_reset, watched, counted-Supply,
}
use zynq_rtl_flow.Bench.SparseSeam.Raw.Rest.{Rests, IsRest, IsRest-edge}

-- what an edge under reset leaves
record IsResetWrapper (w : Wrapper) : Type 0 where
  resting : Rests false 0 0 w
  aw_free : w.write.aw_pend ≡ false
  w_free : w.write.w_pend ≡ false
  free : w.read.rvalid_q ≡ false

reset-edge : (p : Ports) (w : Wrapper) → p.aresetn ≡ false → IsResetWrapper (aclk_edge p w)
unfolding aclk_edge
reset-edge p w r = record {
  resting = record {
    no_tile = ground arith;
    no_start = ground arith;
    no_clear = ground arith;
    enabled = ground arith;
    done_is = ground arith;
    acc_is = ground arith;
    skip_is = ground arith;
  };
  aw_free = ground arith;
  w_free = ground arith;
  free = ground arith;
}

-- the pins of a master between two calls
record IsReleased (m : LiteMaster) : Type 0 where
  no_aw : m.awvalid ≡ false
  no_w : m.wvalid ≡ false
  no_ar : m.arvalid ≡ false
  takes_b : m.bready ≡ true
  takes_r : m.rready ≡ true

module _ (source : StreamSource) (lag : ℕ) (supply : Supply source lag)
    (controls : Controls source) where
  open supply use {Holds, rests, supplies}

  abbrev src : StreamSource
  src = counted source

  abbrev sup : Supply src lag
  sup = counted-Supply source lag supply

  -- the source is somewhere in a frame
  abbrev pub Serves : source.Source → Type 0
  Serves x = (d : ℕ) × (words : List ℕ) × Holds d words x

  -- so it is wherever a tile is
  pub ahead-Serves :
      {acc : ℤ} {skip m : ℕ} {s : Sim src} → Ahead src lag sup acc skip m s → Serves s.src.inner
  ahead-Serves (starting m d word words s a b h g le) = (d, word ∷ words, h)
  ahead-Serves (clearing m d word words s a b h g le) = (d, word ∷ words, h)
  ahead-Serves (running m d word words s a b h partial skips held g le) = (d, word ∷ words, h)
  ahead-Serves (latching m d s a b h held le) = (d, [], h)
  ahead-Serves (complete m d s a b c h i j) = (d, [], h)

  advance-Serves : (ready : Bool) (x : source.Source) → Serves x → Serves (source.advance ready x)
  advance-Serves ready x (d, [], h) = (d, [], (rests d x h).1 ready)
  advance-Serves true x (d, word ∷ words, h) = elim (supplies d word words x h) [
    | inl (_, _, handed) ↦ (d, words, handed)
    | inr (_, e, _, kept) ↦ (e, word ∷ words, kept true)
  ]
  advance-Serves false x (d, word ∷ words, h) = elim (supplies d word words x h) [
    | inl (_, kept, _) ↦ (d, word ∷ words, kept)
    | inr (_, e, _, kept) ↦ (e, word ∷ words, kept false)
  ]

  -- An idle master, and a source behind an edge.
  abbrev pub IsStreaming : Sim src → Type 0
  IsStreaming s =
      IsIdle src s
      × (x : source.Source) × (ready : Bool) × (s.src.inner ≡ source.advance ready x)
      × Serves x

  pub IsStreaming-first :
      (s : Sim src) → IsIdle src s → Serves s.src.inner → IsStreaming (rising_edge src s)
  unfolding rising_edge
  IsStreaming-first s i h = ((rising_edge-IsIdle src s i).0, s.src.inner, tready s.dut, refl, h)

  pub IsStreaming-edge : (s : Sim src) → IsStreaming s → IsStreaming (rising_edge src s)
  IsStreaming-edge s (i, x, ready, same, h) =
      IsStreaming-first s i (subst Serves (sym same) (advance-Serves ready x h))

  -- what every edge keeps holds behind the edges
  pub wait_rising-keeps :
      (rounds k : ℕ) (P : Sim src → Type 0) (s : Sim src)
      → ((u : Sim src) → P u → P (rising_edge src u))
      → P s
      → P (wait_rising (watched source controls rounds) k s)
  unfolding wait_rising
  wait_rising-keeps rounds zero P s keeps h = h
  wait_rising-keeps rounds (suc k) P s keeps h =
      wait_rising-keeps rounds k P (rising_edge src s) keeps (keeps s h)

  -- Under reset, with an idle master and a source that holds nothing.
  record IsResetting (d : ℕ) (s : Sim src) : Type 0 where
    under_reset : s.aresetn ≡ false
    quiet_pins : IsReleased s.lite
    dropped : Holds d [] s.src.inner

  IsResetting-edge : (d : ℕ) (s : Sim src) → IsResetting d s → IsResetting d (rising_edge src s)
  unfolding rising_edge
  IsResetting-edge d s h = record {
    under_reset = h.under_reset;
    quiet_pins = h.quiet_pins;
    dropped = (rests d s.src.inner h.dropped).1 (tready s.dut);
  }

  -- the reset of the test, up to its first read
  abbrev pub reset_by : ℕ → Sim src → Sim src
  reset_by rounds s =
      let clocked = watched source controls rounds in
      let reset = wait_rising clocked 5 (drive_reset source controls false s) in
      rising_edge src
        (to_source source controls.clear (rising_edge src (drive_reset source controls true reset)))

  module _ (obeys : Obeys source lag supply controls) where
    -- A reset in a frame drops it.
    asserted-IsResetting :
        (s : Sim src)
        → IsStreaming s
        → (d : ℕ) × IsResetting d (drive_reset source controls false s)
    unfolding drive_reset
    asserted-IsResetting s (i, x, ready, same, (d, words, h)) = (
      d,
      record {
        under_reset = refl;
        quiet_pins = record {
          no_aw = i.no_aw;
          no_w = i.no_w;
          no_ar = i.no_ar;
          takes_b = i.takes_b;
          takes_r = i.takes_r;
        };
        dropped =
            subst (λ y. Holds d [] (controls.on_reset false y)) (sym same)
              (obeys.aborts ready d words x h);
      },
    )

    -- an edge under reset, and its release
    released-IsRest :
        (d : ℕ) (s : Sim src)
        → IsResetting d s
        → IsRest src lag sup false 0 0 (drive_reset source controls true (rising_edge src s))
    unfolding rising_edge drive_reset
    released-IsRest d s h =
        let w = reset-edge (ports src s) s.dut h.under_reset in
        record {
          idle = record {
            running = refl;
            no_aw = h.quiet_pins.no_aw;
            no_w = h.quiet_pins.no_w;
            no_ar = h.quiet_pins.no_ar;
            takes_b = h.quiet_pins.takes_b;
            takes_r = h.quiet_pins.takes_r;
            aw_free = w.aw_free;
            w_free = w.w_free;
          };
          free = w.free;
          resting = w.resting;
          slack = d;
          empty =
              obeys.releases d (source.advance (tready s.dut) s.src.inner)
                ((rests d s.src.inner h.dropped).1 (tready s.dut));
        }

    cleared-IsRest :
        (s : Sim src)
        → IsRest src lag sup false 0 0 s
        → IsRest src lag sup false 0 0 (to_source source controls.clear s)
    cleared-IsRest s h = record {
      idle = record {
        running = h.idle.running;
        no_aw = h.idle.no_aw;
        no_w = h.idle.no_w;
        no_ar = h.idle.no_ar;
        takes_b = h.idle.takes_b;
        takes_r = h.idle.takes_r;
        aw_free = h.idle.aw_free;
        w_free = h.idle.w_free;
      };
      free = h.free;
      resting = h.resting;
      slack = h.slack;
      empty = obeys.clears h.slack s.src.inner h.empty;
    }

    pub reset_by-IsRest :
        (rounds : ℕ) (s : Sim src)
        → IsStreaming s
        → IsRest src lag sup false 0 0 (reset_by rounds s)
    unfolding wait_rising
    reset_by-IsRest rounds s h =
        let (d, h1) = asserted-IsResetting s h in
        let s1 = drive_reset source controls false s in
        let s4 = wait_rising (watched source controls rounds) 4 s1 in
        let h4 = wait_rising-keeps rounds 4 (IsResetting d) s1 (λ u g. IsResetting-edge d u g) h1 in
        let s5 = rising_edge src (drive_reset source controls true (rising_edge src s4)) in
        IsRest-edge src lag sup
          (cleared-IsRest s5 (IsRest-edge src lag sup (released-IsRest d s4 h4)))
