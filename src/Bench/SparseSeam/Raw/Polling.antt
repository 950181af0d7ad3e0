-- ===== src/Bench/SparseSeam/Raw/Polling.antt =====
-- The polls of STATUS end while a tile is on its way through the wrapper.
use zynq_rtl_flow.Base.{ℕ, zero, suc, ◌*◌, ◌≤◌, false, ◌≡◌, ◌⊎◌, inl, inr, refl, ap, ◌∙◌, arith}
use zynq_rtl_flow.Base.Int.{ℤ}
use zynq_rtl_flow.Rtl.Wrapper.{Ports, rd_mux, status_word}
use zynq_rtl_flow.Bench.SparseSeam.{Bus, is_busy, is_done, reg_status}
use zynq_rtl_flow.Bench.SparseSeam.Tile.{Polls, completed, again}
use zynq_rtl_flow.Bench.SparseSeam.Raw.{StreamSource, Sim, ports, drive, present_read, raw_bus}
use zynq_rtl_flow.Bench.SparseSeam.Raw.Supply.{
  Supply, NoWrite, Ahead, starting, clearing, running, latching, complete,
}
use zynq_rtl_flow.Rtl.Wrapper.Status.{rd_mux-status}
use zynq_rtl_flow.Bench.SparseSeam.Raw.Reads.{
  IsPolling, behind_read, read-IsPolling, status_complete, status-low, status-taken,
}

module _ (source : StreamSource) (lag : ℕ) (supply : Supply source lag) where
  open supply use {Holds, rests, queues}

  -- what STATUS reports: a completed tile, or no DONE and an edge to go at least
  verdict :
      {acc : ℤ} {skip m : ℕ} {s : Sim source} (p : Ports)
      → NoWrite p s.dut
      → Ahead source lag supply acc skip m s
      → ((status_word p s.dut ≡ 2) × Ahead source lag supply acc skip 0 s)
        ⊎ ((is_done (status_word p s.dut) ≡ false) × (1 ≤ m))
  verdict p n (starting m d word words s a b h g le) =
      inr (status-taken p s.dut b, omega (arith, le))
  verdict p n (clearing m d word words s a b h g le) = inr (status-low p s.dut b, omega (arith, le))
  verdict p n (running m d word words s a b h partial skips held g le) =
      inr (status-low p s.dut b, omega (arith, le))
  verdict p n (latching m d s a b h held le) = inr (status-low p s.dut b, le)
  verdict p n (complete m d s a b c h i j) =
      inl (status_complete p s.dut n a b c, complete 0 d s a b c h i j)

  abbrev pub bus_of : ℕ → Bus
  bus_of n = raw_bus source (suc (suc (suc n)))

  -- the STATUS that a poll reads in this state
  abbrev status_in : Sim source → ℕ
  status_in s = rd_mux (ports source (drive source (present_read reg_status) s)) s.dut

  -- where the polls may end
  abbrev Ended : ℕ → ℤ → ℕ → ℕ → Sim source → Type 0
  Ended n acc skip k s =
      (t : Sim source) × Polls (bus_of n) k s t × IsPolling source lag supply acc skip 0 t

  over-IsPolling :
      {acc : ℤ} {skip m : ℕ} (s : Sim source)
      → IsPolling source lag supply acc skip m s
      → Ahead source lag supply acc skip 0 s
      → IsPolling source lag supply acc skip 0 s
  over-IsPolling s h over = record { idle = h.idle; free = h.free; calm = h.calm; ahead = over }

  poll-completed :
      (n k : ℕ) {acc : ℤ} {skip m : ℕ} (s : Sim source)
      → IsPolling source lag supply acc skip m s
      → Ahead source lag supply acc skip 0 s
      → status_in s ≡ 2
      → Ended n acc skip (suc k) s
  poll-completed n k s h over two =
      let (read, next) =
        read-IsPolling source lag supply n reg_status s (over-IsPolling s h over) in
      let t = behind_read source lag supply reg_status s in
      (t, completed k s t (status_in s) read (ap is_done two) (ap is_busy two), next)

  -- With two edges for each poll but the last, a tile is polled to its end.
  pub polls-pass :
      (n k : ℕ) {acc : ℤ} {skip m : ℕ} (s : Sim source)
      → m ≤ 2 * k
      → IsPolling source lag supply acc skip m s
      → Ended n acc skip (suc k) s
  polls-pass n zero {acc} {skip} {m} s le h =
      let p = ports source (drive source (present_read reg_status) s) in
      elim (verdict p h.calm.no_write h.ahead) [
        | inl (two, over) ↦ poll-completed n zero s h over (rd_mux-status p s.dut refl ∙ two)
        | inr (low, more) ↦ absurd (omega (arith, le, more))
      ]
  polls-pass n (suc k) {acc} {skip} {m} s le h =
      let p = ports source (drive source (present_read reg_status) s) in
      let t = behind_read source lag supply reg_status s in
      let (read, next) = read-IsPolling source lag supply n reg_status s h in
      let same = rd_mux-status p s.dut refl in
      elim (verdict p h.calm.no_write h.ahead) [
        | inl (two, over) ↦ poll-completed n (suc k) s h over (same ∙ two)
        | inr (low, more) ↦
            let (u, polls, done) = polls-pass n k t (omega (arith, le, more)) next in
            (u, again (suc k) s t u (status_in s) read (ap is_done same ∙ low) polls, done)
      ]
