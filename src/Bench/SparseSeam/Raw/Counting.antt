-- ===== src/Bench/SparseSeam/Raw/Counting.antt =====
-- `while consumed.total < 24` of test_clear_mid_tile in tb/sparse_cnn_axi/tb_sparse_cnn_axi.py, and the
-- write that clears EN behind it, on the wrapper.
use mathlib.Core.Path.{subst}
use zynq_rtl_flow.Base.{
  ℕ, zero, suc, ◌+◌, ◌-◌, ◌≤◌, ◌<◌, List, length, true, false, ◌≡◌, inl, inr, ap, ◌∙◌, arith, ok,
  ltb, Bool-cases, if◌then◌else◌, no_end,
}
use zynq_rtl_flow.Effects.{return, raise}
use zynq_rtl_flow.Rtl.AxiLite.{LiteMaster}
use zynq_rtl_flow.Bench.SparseSeam.Clocked.{wait_total}
use zynq_rtl_flow.Bench.SparseSeam.Raw.{StreamSource, Sim, drive, rising_edge}
use zynq_rtl_flow.Bench.SparseSeam.Raw.Steps.{IsIdle, rising_edge-IsIdle}
use zynq_rtl_flow.Bench.SparseSeam.Raw.Supply.{Supply}
use zynq_rtl_flow.Bench.SparseSeam.Raw.Underway.{IsIdle-calm}
use zynq_rtl_flow.Bench.SparseSeam.Raw.Watched.{Controls, counted, watched, counted-Supply}
use zynq_rtl_flow.Bench.SparseSeam.Raw.MidTile.{Mid, begins, clears, runs, Mid-edge}

reached : (x total bound : ℕ) → x ≡ total → total ≤ bound → ltb x bound ≡ false → total ≡ bound
reached x total bound e le over = ground arith

below : (x total bound : ℕ) → x ≡ total → ltb x bound ≡ true → total < bound
below x total bound e more = ground arith

module _ (source : StreamSource) (lag : ℕ) (supply : Supply source lag) (frame : List ℕ) where
  abbrev src : StreamSource
  src = counted source

  abbrev pub MidOf : ℕ → ℕ → Sim src → Type 0
  MidOf = Mid source lag supply frame

  pub drive-Mid :
      (f : LiteMaster → LiteMaster) {total m : ℕ} {s : Sim src}
      → MidOf total m s
      → MidOf total m (drive src f s)
  drive-Mid f (begins m d word words s a b c le) = begins m d word words (drive src f s) a b c le
  drive-Mid f (clears m d word words s a b c le) = clears m d word words (drive src f s) a b c le
  drive-Mid f (runs total m d word words s a b c le) =
      runs total m d word words (drive src f s) a b c le

  Mid-total : {total m : ℕ} {s : Sim src} → MidOf total m s → s.src.total ≡ total
  Mid-total (begins m d word words s a b c le) = c.total_is
  Mid-total (clears m d word words s a b c le) = c.total_is
  Mid-total (runs total m d word words s a b c le) = c.total_is

  -- an edge, which counts a beat or is one of those that count none
  abbrev pub Onward : ℕ → ℕ → Sim src → Type 0
  Onward total m t =
      (k : ℕ) × (n : ℕ) × MidOf k n t × (total ≤ k) × (k ≤ suc total) × (n + suc total ≡ k + m)

  pub Mid-Onward :
      {total m : ℕ} {s : Sim src}
      → s.aresetn ≡ true
      → s.dut.ctrl.clear_pulse ≡ false
      → s.dut.ctrl.en_reg ≡ true
      → suc total < length frame
      → MidOf total m s
      → Onward total m (rising_edge src s)
  Mid-Onward {total} {m} r c en far h = elim (Mid-edge source lag supply frame (r, c) en far h) [
    | inl more ↦ (suc total, m, more, omega arith, omega arith, omega arith)
    | inr (same, some) ↦ (total, m - 1, same, omega arith, omega arith, omega (arith, some))
  ]

  -- The master is idle, EN is set, and so many beats of the tile are counted.
  pub record IsCounting (total m : ℕ) (s : Sim src) : Type 0 where
    pub idle : IsIdle src s
    pub no_clear : s.dut.ctrl.clear_pulse ≡ false
    pub enabled : s.dut.ctrl.en_reg ≡ true
    pub mid : Mid source lag supply frame total m s

  pub IsCounting-edge :
      {total m : ℕ} {s : Sim src}
      → suc total < length frame
      → IsCounting total m s
      → let t = rising_edge src s in
        (k : ℕ) × (n : ℕ) × IsCounting k n t
        × (total ≤ k)
        × (k ≤ suc total)
        × (n + suc total ≡ k + m)
  IsCounting-edge {s = s} far h =
      let (k, n, mid, more, few, same) = Mid-Onward h.idle.running h.no_clear h.enabled far h.mid in
      let (_, clear, en) = IsIdle-calm src lag (counted-Supply source lag supply) s h.idle in
      (
        k,
        n,
        record {
          idle = (rising_edge-IsIdle src s h.idle).0;
          no_clear = clear;
          enabled = en ∙ h.enabled;
          mid = mid;
        },
        more,
        few,
        same,
      )

  module _ (controls : Controls source) (rounds : ℕ) where
    -- the rounds of the loop that the test of the total decides on
    wait_total-over :
        (n bound : ℕ) (s : Sim src)
        → ltb s.src.total bound ≡ false
        → wait_total (watched source controls rounds) n bound s ≡ (ok tt, s)
    unfolding wait_total
    wait_total-over zero bound s e = ap (λ b. (if b then raise no_end else return tt) s) e
    wait_total-over (suc n) bound s e =
        ap
          (λ b.
            if b
            then wait_total (watched source controls rounds) n bound (rising_edge src s)
            else return tt s)
          e

    wait_total-more :
        (n bound : ℕ) (s : Sim src)
        → ltb s.src.total bound ≡ true
        → wait_total (watched source controls rounds) (suc n) bound s
          ≡ wait_total (watched source controls rounds) n bound (rising_edge src s)
    unfolding wait_total
    wait_total-more n bound s e =
        ap
          (λ b.
            if b
            then wait_total (watched source controls rounds) n bound (rising_edge src s)
            else return tt s)
          e

    ended :
        (n bound : ℕ) {total m : ℕ} (s : Sim src)
        → IsCounting total m s
        → total ≤ bound
        → ltb s.src.total bound ≡ false
        → (t : Sim src) × (k : ℕ) × (wait_total (watched source controls rounds) n bound s
            ≡ (ok tt, t))
          × (k ≤ m)
          × IsCounting bound k t
    ended n bound {total} {m} s h few over = (
      s,
      m,
      wait_total-over n bound s over,
      omega arith,
      subst (λ x. IsCounting x m s) (reached s.src.total total bound (Mid-total h.mid) few over) h,
    )

    -- With a round for every beat that is missing and every edge that counts none, the loop ends, with
    -- just so many beats counted.
    pub wait_total-ends :
        (n bound : ℕ) {total m : ℕ} (s : Sim src)
        → bound < length frame
        → total ≤ bound
        → bound - total + m ≤ n
        → IsCounting total m s
        → (t : Sim src) × (k : ℕ) × (wait_total (watched source controls rounds) n bound s
            ≡ (ok tt, t))
          × (k ≤ m)
          × IsCounting bound k t
    wait_total-ends zero bound {total} {m} s far few enough h =
        ended zero bound s h few (ground (arith, enough, Mid-total h.mid))
    wait_total-ends (suc n) bound {total} {m} s far few enough h =
        elim (Bool-cases (ltb s.src.total bound)) [
          | inr over ↦ ended (suc n) bound s h few over
          | inl more ↦
              let less = below s.src.total total bound (Mid-total h.mid) more in
              let (k, m', h', up, one, same) = IsCounting-edge (omega (arith, far, less)) h in
              let (t, j, ends, fewer, last) =
                wait_total-ends n bound (rising_edge src s) far (omega (arith, one, less))
                  (omega (arith, up, one, same, enough, less)) h' in
              (
                t,
                j,
                wait_total-more n bound s more ∙ ends,
                omega (arith, up, one, same, fewer),
                last,
              )
        ]
