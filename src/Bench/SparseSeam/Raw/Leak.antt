-- ===== src/Bench/SparseSeam/Raw/Leak.antt =====
-- test_result_read_before_completion of tb/sparse_cnn_axi/tb_sparse_cnn_axi.py, on the wrapper, when a
-- tile completes between two of its reads.
use zynq_rtl_flow.Base.{
  ℕ, suc, Bool, true, false, ◌≡◌, refl, ap, ◌∙◌, err, assertion_error, if◌then◌else◌,
}
use zynq_rtl_flow.Base.Int.{ℤ, pos, ◌==ℤ◌}
use zynq_rtl_flow.Words.{low_bits}
use zynq_rtl_flow.Golden.SparseMac.{acc_w, to_signed}
use zynq_rtl_flow.Effects.{M, ◌>>=◌, return, lift}
use zynq_rtl_flow.Effects.Laws.{bind-ok}
use zynq_rtl_flow.Rtl.Wrapper.{rd_mux}
use zynq_rtl_flow.Rtl.Wrapper.Status.{rd_mux-status}
use zynq_rtl_flow.Bench.PeSeam.{check}
use zynq_rtl_flow.Bench.SparseSeam.{reg_status, reg_acc, reg_skip, is_done, read_acc}
use zynq_rtl_flow.Bench.SparseSeam.Cases.{expect}
use zynq_rtl_flow.Bench.SparseSeam.Clocked.{reads_before_done}
use zynq_rtl_flow.Bench.SparseSeam.Raw.{
  StreamSource, Sim, ports, drive, present_read, raw_read_dword,
}
use zynq_rtl_flow.Bench.SparseSeam.Raw.Supply.{Supply}
use zynq_rtl_flow.Bench.SparseSeam.Raw.Reads.{IsPolling, behind_read, read-IsPolling, status-low}
use zynq_rtl_flow.Bench.SparseSeam.Raw.Pass.{acc-read}
use zynq_rtl_flow.Bench.SparseSeam.Raw.Watched.{Controls, counted, watched, counted-Supply}

module _ (source : StreamSource) (lag : ℕ) (supply : Supply source lag)
    (controls : Controls source) where
  abbrev src : StreamSource
  src = counted source

  abbrev sup : Supply src lag
  sup = counted-Supply source lag supply

  -- what the loop does behind a status
  abbrev compares : ℕ → ℕ → ℤ × ℕ → M (Sim src) Bool
  compares n k first =
      let clocked = watched source controls (suc (suc (suc n))) in
      read_acc clocked.bus >>= λ acc. lift (check (acc ==ℤ first.0)) >>= λ _.
      expect clocked.bus reg_skip first.1 >>= λ _. reads_before_done clocked k first true

  -- The loop of test_result_read_before_completion, which reads STATUS and then ACC and SKIP, takes a
  -- tile that completes between the first two reads for a leak: two edges or fewer before its
  -- completion STATUS has no DONE, and ACC is then the one of the completed tile. Where that is not
  -- the first tile's the loop raises an AssertionError, though the wrapper is right.
  pub reads_before_done-raises :
      (n k : ℕ) (first : ℤ × ℕ) (saw_busy : Bool) {acc : ℤ} {skip : ℕ} (s : Sim src)
      → IsPolling src lag sup acc skip 2 s
      → s.dut.done_q ≡ false
      → (to_signed (pos (low_bits 32 acc)) acc_w ==ℤ first.0) ≡ false
      → (t : Sim src) × (reads_before_done
            (watched source controls (suc (suc (suc n))))
            (suc k)
            first
            saw_busy
            s
          ≡ (err assertion_error, t))
  unfolding reads_before_done
  reads_before_done-raises n k first saw_busy {acc} s h low other =
      let rounds = suc (suc (suc n)) in
      let clocked = watched source controls rounds in
      let p = ports src (drive src (present_read reg_status) s) in
      let status = rd_mux p s.dut in
      let (read, next) = read-IsPolling src lag sup n reg_status s h in
      let s1 = behind_read src lag sup reg_status s in
      let (got, _) = acc-read src lag sup n s1 next in
      let s2 = behind_read src lag sup reg_acc s1 in
      let value = to_signed (pos (low_bits 32 acc)) acc_w in
      let rest = λ (_ : Unit {0}).
        expect clocked.bus reg_skip first.1 >>= λ _. reads_before_done clocked k first true in
      (
        s2,
        bind-ok (raw_read_dword src rounds reg_status)
              (λ word. if is_done word then return saw_busy else compares n k first) s s1 status
              read
            ∙ (ap (λ b. (if b then return saw_busy else compares n k first) s1)
                  (ap is_done (rd_mux-status p s.dut refl) ∙ status-low p s.dut low)
                ∙ (bind-ok (read_acc clocked.bus) (λ a. lift (check (a ==ℤ first.0)) >>= rest) s1 s2
                      value got
                    ∙ ap (λ b. (lift (check b) >>= rest) s2) other)),
      )
