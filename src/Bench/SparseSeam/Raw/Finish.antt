-- ===== src/Bench/SparseSeam/Raw/Finish.antt =====
-- How the tests that started a tile themselves finish, on the wrapper: the polls end, and both results
-- are the golden ones of the beats on their way.
use zynq_rtl_flow.Base.{ℕ, suc, ◌*◌, ◌%◌, ◌^◌, ◌≤◌, ◌==◌, ==_refl, List, [], ◌≡◌, sym, ap, ◌∙◌, ok}
use zynq_rtl_flow.Base.Int.{ℤ, pos, ◌==ℤ◌, ==ℤ_refl}
use zynq_rtl_flow.Words.{low_bits}
use zynq_rtl_flow.Golden.SparseMac.{acc_w, golden, to_signed}
use zynq_rtl_flow.Effects.{M, ◌>>=◌, lift}
use zynq_rtl_flow.Effects.Laws.{bind-ok}
use zynq_rtl_flow.Bench.PeSeam.{check}
use zynq_rtl_flow.Bench.SparseSeam.{reg_skip, await_done, read_acc}
use zynq_rtl_flow.Bench.SparseSeam.Cases.{expect}
use zynq_rtl_flow.Bench.SparseSeam.Clocked.{expect_results}
use zynq_rtl_flow.Bench.SparseSeam.Tile.{Polls-poll}
use zynq_rtl_flow.Bench.SparseSeam.Raw.{StreamSource, Sim, raw_read_dword}
use zynq_rtl_flow.Bench.SparseSeam.Raw.Supply.{Supply}
use zynq_rtl_flow.Bench.SparseSeam.Raw.Reads.{IsPolling, behind_read}
use zynq_rtl_flow.Bench.SparseSeam.Raw.Polling.{polls-pass}
use zynq_rtl_flow.Bench.SparseSeam.Raw.Check.{IsReady}
use zynq_rtl_flow.Bench.SparseSeam.Raw.Pass.{acc-read, skip-read}
use zynq_rtl_flow.Bench.SparseSeam.Raw.Watched.{
  Controls, counted, to_source, watched, counted-Supply,
}

-- an assertion that two equal numbers are equal
pub check-same : {S : Type 0} (x y : ℕ) (s : S) → x ≡ y → lift (check (x == y)) s ≡ (ok tt, s)
check-same x y s e =
    ap (λ z. lift (check (x == z)) s) (sym e) ∙ ap (λ b. lift (check b) s) (==_refl x)

pub check-sameℤ : {S : Type 0} (x y : ℤ) (s : S) → x ≡ y → lift (check (x ==ℤ y)) s ≡ (ok tt, s)
check-sameℤ x y s e =
    ap (λ z. lift (check (x ==ℤ z)) s) (sym e) ∙ ap (λ b. lift (check b) s) (==ℤ_refl x)

-- the two results of a tile, as the testbench reads them, are the golden ones
abbrev pub AreGolden : List ℤ → List ℤ → ℤ → ℕ → Type 0
AreGolden weights acts acc skip =
    (to_signed (pos (low_bits 32 acc)) acc_w ≡ (golden weights acts).0)
    × (skip % 2 ^ 16 ≡ (golden weights acts).1)

module _ (source : StreamSource) (lag : ℕ) (supply : Supply source lag)
    (controls : Controls source) where
  abbrev src : StreamSource
  src = counted source

  abbrev sup : Supply src lag
  sup = counted-Supply source lag supply

  -- both results of a completed tile
  pub expect_results-pass :
      (n : ℕ) (weights acts : List ℤ) {acc : ℤ} {skip : ℕ} (s : Sim src)
      → AreGolden weights acts acc skip
      → IsPolling src lag sup acc skip 0 s
      → (t : Sim src) × (expect_results (watched source controls (suc (suc (suc n)))) weights acts s
          ≡ (ok tt, t))
        × IsReady src lag sup t
  unfolding expect_results expect
  expect_results-pass n weights acts {acc} {skip} s same h =
      let clocked = watched source controls (suc (suc (suc n))) in
      let exp = golden weights acts in
      let (read, next) = acc-read src lag sup n s h in
      let t = behind_read src lag sup 12 s in
      let (read', ready) = skip-read src lag sup n t next in
      let u = behind_read src lag sup reg_skip t in
      let last = λ (_ : Unit {0}). expect clocked.bus reg_skip exp.1 in
      (
        u,
        bind-ok (read_acc clocked.bus) (λ a. lift (check (a ==ℤ exp.0)) >>= last) s t _ read
            ∙ (bind-ok (lift (check (to_signed (pos (low_bits 32 acc)) acc_w ==ℤ exp.0))) last t t
                  tt (check-sameℤ _ _ t same.0)
                ∙ (bind-ok (raw_read_dword src (suc (suc (suc n))) reg_skip)
                      (λ got. lift (check (got == exp.1))) t u _ read'
                    ∙ check-same _ _ u same.1)),
        ready,
      )

  -- the end of a test
  abbrev pub finish : ℕ → List ℤ → List ℤ → M (Sim src) (Unit {0})
  finish n weights acts =
      let clocked = watched source controls (suc (suc (suc n))) in
      await_done clocked.bus >>= λ _. expect_results clocked weights acts

  -- A tile that is on its way ends within the polls, with its results.
  pub finish-passes :
      (n m : ℕ) (weights acts : List ℤ) {acc : ℤ} {skip : ℕ} (s : Sim src)
      → m ≤ 2 * 9999
      → AreGolden weights acts acc skip
      → IsPolling src lag sup acc skip m s
      → (t : Sim src) × (finish n weights acts s ≡ (ok tt, t)) × IsReady src lag sup t
  unfolding await_done
  finish-passes n m weights acts s enough same h =
      let clocked = watched source controls (suc (suc (suc n))) in
      let (t, polls, done) = polls-pass src lag sup n 9999 s enough h in
      let (u, passes, ready) = expect_results-pass n weights acts t same done in
      (
        u,
        bind-ok (await_done clocked.bus) (λ _. expect_results clocked weights acts) s t tt
              (Polls-poll clocked.bus polls)
            ∙ passes,
        ready,
      )

module _ (source : StreamSource) (lag : ℕ) (supply : Supply source lag) where
  -- what is done to a source that holds nothing, and leaves it so, leaves the accelerator ready
  pub to_source-IsReady :
      (f : source.Source → source.Source) (s : Sim (counted source))
      → ((d : ℕ) (x : source.Source) → supply.Holds d [] x → supply.Holds d [] (f x))
      → IsReady (counted source) lag (counted-Supply source lag supply) s
      → IsReady (counted source) lag (counted-Supply source lag supply) (to_source source f s)
  to_source-IsReady f s keeps r = record {
    idle = record {
      running = r.idle.running;
      no_aw = r.idle.no_aw;
      no_w = r.idle.no_w;
      no_ar = r.idle.no_ar;
      takes_b = r.idle.takes_b;
      takes_r = r.idle.takes_r;
      aw_free = r.idle.aw_free;
      w_free = r.idle.w_free;
    };
    no_tile = r.no_tile;
    no_start = r.no_start;
    no_clear = r.no_clear;
    enabled = r.enabled;
    slack = r.slack;
    empty = keeps r.slack s.src.inner r.empty;
  }
