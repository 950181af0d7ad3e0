-- ===== src/Bench/SparseSeam/Raw/MidTile.antt =====
-- A tile whose beats a _BeatCounter counts, on the wrapper, until one of the tests of
-- tb/sparse_cnn_axi/tb_sparse_cnn_axi.py has seen so many.
use mathlib.Core.Path.{subst}
use zynq_rtl_flow.Base.{
  ℕ, zero, suc, ◌+◌, ◌-◌, ◌≤◌, ◌<◌, List, [], ◌∷◌, length, length-drop, drop, Bool, true, false,
  ◌&&◌, ◌≡◌, ◌⊎◌, inl, inr, refl, sym, ap, ◌∙◌, arith, if◌then◌else◌,
}
use zynq_rtl_flow.Rtl.Wrapper.{s_idle, s_clear, s_run, aclk_edge, tready}
use zynq_rtl_flow.Rtl.Wrapper.Edges.{Quiet, start-edge, clear-edge}
use zynq_rtl_flow.Bench.SparseSeam.Raw.{StreamSource, Sim, ports, rising_edge}
use zynq_rtl_flow.Bench.SparseSeam.Raw.Supply.{beat_of, Supply, clear-done}
use zynq_rtl_flow.Bench.SparseSeam.Raw.Progress.{not_run-tready, run-tready}
use zynq_rtl_flow.Bench.SparseSeam.Raw.Watched.{CountedSource, counted, counted_edge}

drop-next :
    (k : ℕ) (frame words : List ℕ) (word : ℕ)
    → drop k frame ≡ word ∷ words
    → drop (suc k) frame ≡ words
drop-next zero [] words word e = absurd (cc)
drop-next zero (x ∷ frame) words word e = cc
drop-next (suc k) [] words word e = absurd (cc)
drop-next (suc k) (x ∷ frame) words word e = drop-next k frame words word e

module _ (source : StreamSource) (lag : ℕ) (supply : Supply source lag) (frame : List ℕ) where
  open supply use {Holds, supplies}

  -- A started counter has counted the beats of the frame that are gone; these are left.
  pub record Counts (d total word : ℕ) (words : List ℕ) (c : CountedSource source) : Type 0 where
    pub is_on : c.is_started ≡ true
    pub total_is : c.total ≡ total
    pub left : drop total frame ≡ word ∷ words
    pub holds : Holds d (word ∷ words) c.inner

  pub total-step :
      (c : CountedSource source) (ready valid : Bool)
      → c.is_started ≡ true
      → (source.offered c.inner).tvalid ≡ valid
      → (counted_edge source ready c).total ≡ (if valid && ready then suc c.total else c.total)
  total-step c ready valid on v =
      ap (λ b. if b && ((source.offered c.inner).tvalid && ready) then suc c.total else c.total) on
      ∙ ap (λ b. if b && ready then suc c.total else c.total) v

  -- an edge with READY low counts nothing
  pub shut-Counts :
      (d total word : ℕ) (words : List ℕ) (c : CountedSource source)
      → Counts d total word words c
      → (e : ℕ) × (e ≤ d) × Counts e total word words (counted_edge source false c)
  shut-Counts d total word words c h =
      let same = total-step c false _ h.is_on refl ∙ ground arith in
      elim (supplies d word words c.inner h.holds) [
        | inl (_, kept, _) ↦ (
          d,
          omega arith,
          record { is_on = h.is_on; total_is = same ∙ h.total_is; left = h.left; holds = kept },
        )
        | inr (_, e, less, kept) ↦ (
          e,
          omega (arith, less),
          record {
            is_on = h.is_on;
            total_is = same ∙ h.total_is;
            left = h.left;
            holds = kept false;
          },
        )
      ]

  -- the final beat is further ahead than the next one
  more_words :
      (d total word : ℕ) (c : CountedSource source)
      → Counts d total word [] c
      → suc total < length frame
      → ⊥
  more_words d total word c h far =
      absurd (omega (arith, far, length-drop total frame, ap length h.left))

  -- an edge with READY high counts a beat that is offered
  pub open-Counts :
      (d total word : ℕ) (words : List ℕ) (c : CountedSource source)
      → Counts d total word words c
      → suc total < length frame
      → ((next : ℕ) × (rest : List ℕ) × (source.offered c.inner ≡ beat_of word (next ∷ rest))
          × Counts d (suc total) next rest (counted_edge source true c))
        ⊎ (((source.offered c.inner).tvalid ≡ false)
            × (e : ℕ) × (suc e ≡ d)
            × Counts e total word words (counted_edge source true c))
  open-Counts d total word [] c h far = absurd (more_words d total word c h far)
  open-Counts d total word (next ∷ rest) c h far =
      elim (supplies d word (next ∷ rest) c.inner h.holds) [
        | inl (off, _, handed) ↦ inl (
          next,
          rest,
          off,
          record {
            is_on = h.is_on;
            total_is = total-step c true true h.is_on (ap (λ b. b.tvalid) off) ∙ ap suc h.total_is;
            left = drop-next total frame (next ∷ rest) word h.left;
            holds = handed;
          },
        )
        | inr (none, e, less, kept) ↦ inr (
          none,
          e,
          less,
          record {
            is_on = h.is_on;
            total_is = total-step c true false h.is_on none ∙ h.total_is;
            left = h.left;
            holds = kept true;
          },
        )
      ]

  -- So many beats of the tile are counted, and at most so many edges more count none.
  pub data Mid : ℕ → ℕ → Sim (counted source) → Type 0 where
    begins :
        (m d word : ℕ) (words : List ℕ) (s : Sim (counted source))
        → s.dut.state ≡ s_idle
        → s.dut.ctrl.start_pulse ≡ true
        → Counts d 0 word words s.src
        → d + 2 ≤ m
        → Mid 0 m s
    clears :
        (m d word : ℕ) (words : List ℕ) (s : Sim (counted source))
        → s.dut.state ≡ s_clear
        → s.dut.done_q ≡ false
        → Counts d 0 word words s.src
        → d + 1 ≤ m
        → Mid 0 m s
    runs :
        (total m d word : ℕ) (words : List ℕ) (s : Sim (counted source))
        → s.dut.state ≡ s_run
        → s.dut.done_q ≡ false
        → Counts d total word words s.src
        → d ≤ m
        → Mid total m s

  shut-edge :
      (d word : ℕ) (words : List ℕ) (s : Sim (counted source))
      → Counts d 0 word words s.src
      → tready s.dut ≡ false
      → (e : ℕ) × (e ≤ d) × Counts e 0 word words (rising_edge (counted source) s).src
  unfolding rising_edge
  shut-edge d word words s h shut =
      let (e, less, kept) = shut-Counts d 0 word words s.src h in
      (e, less, subst (λ r. Counts e 0 word words (counted_edge source r s.src)) (sym shut) kept)

  run-state :
      (s : Sim (counted source)) (valid last : Bool)
      → Quiet (ports (counted source) s) s.dut
      → s.dut.state ≡ s_run
      → s.dut.done_q ≡ false
      → (source.offered s.src.inner).tvalid ≡ valid
      → (source.offered s.src.inner).tlast ≡ last
      → valid && last ≡ false
      → ((rising_edge (counted source) s).dut.state ≡ s_run)
        × ((rising_edge (counted source) s).dut.done_q ≡ false)
  unfolding rising_edge aclk_edge
  run-state s valid last q run low v l none = (ground arith, ground arith)

  start-state :
      (s : Sim (counted source))
      → s.aresetn ≡ true
      → s.dut.state ≡ s_idle
      → s.dut.ctrl.start_pulse ≡ true
      → ((rising_edge (counted source) s).dut.state ≡ s_clear)
        × ((rising_edge (counted source) s).dut.done_q ≡ false)
  unfolding rising_edge
  start-state s r idle start = start-edge (ports (counted source) s) s.dut r idle start

  clear-state :
      (s : Sim (counted source))
      → s.aresetn ≡ true
      → s.dut.state ≡ s_clear
      → s.dut.done_q ≡ false
      → ((rising_edge (counted source) s).dut.state ≡ s_run)
        × ((rising_edge (counted source) s).dut.done_q ≡ false)
  unfolding rising_edge
  clear-state s r clear low =
      let p = ports (counted source) s in
      ((clear-edge p s.dut r clear).0, clear-done p s.dut r clear ∙ low)

  ready-Counts :
      (d total word : ℕ) (words : List ℕ) (s : Sim (counted source))
      → tready s.dut ≡ true
      → Counts d total word words (counted_edge source true s.src)
      → Counts d total word words (rising_edge (counted source) s).src
  unfolding rising_edge
  ready-Counts d total word words s ready h =
      subst (λ r. Counts d total word words (counted_edge source r s.src)) (sym ready) h

  -- An edge with EN set counts a beat, or is one of those that count none.
  pub Mid-edge :
      {total m : ℕ} {s : Sim (counted source)}
      → Quiet (ports (counted source) s) s.dut
      → s.dut.ctrl.en_reg ≡ true
      → suc total < length frame
      → Mid total m s
      → let t = rising_edge (counted source) s in
        Mid (suc total) m t ⊎ (Mid total (m - 1) t × (1 ≤ m))
  Mid-edge q en far (begins m d word words s idle start h le) =
      let (e, less, kept) = shut-edge d word words s h (not_run-tready s.dut (inl idle)) in
      let (to_clear, low) = start-state s q.0 idle start in
      inr (
        clears (m - 1) e word words (rising_edge (counted source) s) to_clear low kept
            (omega (arith, less, le)),
        omega (arith, le),
      )
  Mid-edge q en far (clears m d word words s clear low h le) =
      let (e, less, kept) = shut-edge d word words s h (not_run-tready s.dut (inr (inl clear))) in
      let (to_run, low') = clear-state s q.0 clear low in
      inr (
        runs 0 (m - 1) e word words (rising_edge (counted source) s) to_run low' kept
            (omega (arith, less, le)),
        omega (arith, le),
      )
  Mid-edge q en far (runs total m d word words s run low h le) =
      let ready = run-tready s.dut run en q.1 in
      elim (open-Counts d total word words s.src h far) [
        | inl (next, rest, off, counted_it) ↦
            let (run', low') =
              run-state s true false q run low (ap (λ b. b.tvalid) off) (ap (λ b. b.tlast) off)
                refl in
            inl (
              runs (suc total) m d next rest (rising_edge (counted source) s) run' low'
                (ready-Counts d (suc total) next rest s ready counted_it) le)
        | inr (none, e, less, kept) ↦
            let (run', low') = run-state s false _ q run low none refl refl in
            inr (
              runs total (m - 1) e word words (rising_edge (counted source) s) run' low'
                  (ready-Counts e total word words s ready kept) (omega (arith, less, le)),
              omega (arith, less, le),
            )
      ]
