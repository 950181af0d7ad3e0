-- ===== src/Tests/Tiles.antt =====
-- The tests of the AXI wrapper's testbench that pass on the wrapper, with a source that stalls twice
-- before each frame.
use mathlib.Core.Path.{ap₂}
use zynq_rtl_flow.Base.{
  ℕ, zero, suc, ◌+◌, ◌-◌, ◌≤◌, ◌<◌, List, [], ◌∷◌, ◌++◌, Bool, true, false, ◌≡◌, ◌⊎◌, inl, inr,
  refl, ok, arith, All, length,
}
use zynq_rtl_flow.Base.Int.{ℤ, pos, negsuc}
use zynq_rtl_flow.Golden.SparseMac.{zip}
use zynq_rtl_flow.Golden.Draws.Range.{IsPair}
use zynq_rtl_flow.Bench.SparseSeam.{check_tile}
use zynq_rtl_flow.Bench.SparseSeam.Cases.{test_back_to_back_tiles}
use zynq_rtl_flow.Bench.SparseSeam.Raw.{StreamSource, Sim, Beat, released, raw_bus}
use zynq_rtl_flow.Bench.SparseSeam.Raw.Cases.{
  bring_up, test_status_never_reports_the_previous_tile_after_start,
}
use zynq_rtl_flow.Bench.SparseSeam.Raw.Racy.{racy_test-passes}
use zynq_rtl_flow.Bench.SparseSeam.Raw.Supply.{Supply, beat_of}
use zynq_rtl_flow.Bench.SparseSeam.Raw.Check.{IsReady}
use zynq_rtl_flow.Bench.SparseSeam.Raw.Pass.{check_tile-passes}
use zynq_rtl_flow.Bench.SparseSeam.Raw.Tiles.{bring_up-IsReady, test_back_to_back_tiles-passes}
use zynq_rtl_flow.Tests.Fixtures.{lowest}
use zynq_rtl_flow.Tests.Raw.{wild}

abbrev pub Waiting : Type 0
Waiting = ℕ × List ℕ

abbrev pub pins_of : Waiting → Beat
pins_of (suc k, words) = record { tdata = 0; tvalid = false; tlast = false }
pins_of (zero, []) = record { tdata = 0; tvalid = false; tlast = false }
pins_of (zero, word ∷ words) = beat_of word words

abbrev pub advance : Bool → Waiting → Waiting
advance ready (suc k, words) = (k, words)
advance ready (zero, []) = (0, [])
advance false (zero, word ∷ words) = (0, word ∷ words)
advance true (zero, word ∷ words) = (0, words)

abbrev pub source : StreamSource
source = record {
  Source = Waiting;
  offered = pins_of;
  advance = advance;
  queue = λ words x. (2, x.1 ++ words);
}

abbrev pub Holds : ℕ → List ℕ → Waiting → Type 0
Holds d words x = (x.1 ≡ words) × (x.0 ≤ d)

pub rests :
    (d : ℕ) (x : Waiting)
    → Holds d [] x
    → ((pins_of x).tvalid ≡ false) × ((ready : Bool) → Holds d [] (advance ready x))
rests d (suc k, []) h = (refl, λ ready. (refl, omega (arith, h.1)))
rests d (zero, []) h = (refl, λ ready. (refl, omega arith))
rests d (suc k, word ∷ words) h = absurd (cc)
rests d (zero, word ∷ words) h = absurd (cc)

head_is : {w word : ℕ} {ws words : List ℕ} → w ∷ ws ≡ word ∷ words → w ≡ word
head_is h = cc

tail_is : {w word : ℕ} {ws words : List ℕ} → w ∷ ws ≡ word ∷ words → ws ≡ words
tail_is h = cc

pub supplies :
    (d word : ℕ) (words : List ℕ) (x : Waiting)
    → Holds d (word ∷ words) x
    → ((pins_of x ≡ beat_of word words)
        × Holds d (word ∷ words) (advance false x)
        × Holds d words (advance true x))
      ⊎ (((pins_of x).tvalid ≡ false)
          × (e : ℕ) × (suc e ≡ d)
          × ((ready : Bool) → Holds e (word ∷ words) (advance ready x)))
supplies d word words (suc k, queued) h =
    inr (refl, d - 1, omega (arith, h.1), λ ready. (h.0, omega (arith, h.1)))
supplies d word words (zero, []) h = absurd (cc)
supplies d word words (zero, w ∷ ws) h =
    inl (ap₂ beat_of (head_is h.0) (tail_is h.0), h, (tail_is h.0, omega arith))

abbrev pub supply : Supply source 2
supply = record {
  Holds = Holds;
  rests = rests;
  supplies = supplies;
  queues = λ d words x h. (rw (h.0) refl, omega arith);
}

abbrev begun : Sim source
begun = record { aresetn = true; lite = released; src = (1, []); dut = wild }

abbrev fresh : Sim source
fresh = bring_up source begun

fresh-IsReady : IsReady source 2 supply fresh
fresh-IsReady = bring_up-IsReady source 2 supply 1 begun (refl, omega arith)

abbrev weights : List ℤ
weights = pos 3 ∷ pos 0 ∷ []

abbrev acts : List ℤ
acts = negsuc 4 ∷ pos 7 ∷ []

two_pairs : All IsPair (zip weights acts)
unfolding zip
two_pairs = omega arith

some_pairs : 0 < length (zip weights acts)
unfolding zip
some_pairs = omega arith

few_pairs : 2 + length (zip weights acts) ≤ 19995
unfolding zip
few_pairs = omega arith

check_tile-passes_example :
    (t : Sim source) × (check_tile (raw_bus source 3) weights acts fresh ≡ (ok tt, t))
    × IsReady source 2 supply t
check_tile-passes_example =
    check_tile-passes source 2 supply 0 weights acts fresh two_pairs some_pairs few_pairs
      fresh-IsReady

test_back_to_back_tiles-passes_example :
    (t : Sim source) × (test_back_to_back_tiles (raw_bus source 3) lowest fresh ≡ (ok tt, t))
    × IsReady source 2 supply t
test_back_to_back_tiles-passes_example =
    test_back_to_back_tiles-passes source 2 supply 0 lowest 1 begun (omega arith)
      (refl, omega arith)

racy_test-passes_example :
    (t : Sim source) × (test_status_never_reports_the_previous_tile_after_start source 3 lowest
        fresh
      ≡ (ok tt, t))
    × IsReady source 2 supply t
racy_test-passes_example =
    racy_test-passes source 2 supply 0 lowest 1 begun (omega arith) (refl, omega arith)
