-- ===== src/Bench/SparseSeam/Tile.antt =====
-- What a tile that passes the testbench's check has shown of the accelerator, poll by poll.
use mathlib.Core.Path.{ap₂}
use zynq_rtl_flow.Base.{
  ℕ, zero, suc, ◌==◌, List, Bool, true, false, ◌≡◌, ◌↔◌, ◌⊎◌, refl, ap, ◌∙◌, Result, ok, err,
  assertion_error, inl, inr, if◌then◌else◌, ==_iff, ok-injective,
}
use zynq_rtl_flow.Base.Int.{ℤ, pos, ◌==ℤ◌, ==ℤ_sound}
use zynq_rtl_flow.Golden.SparseMac.{acc_w, golden, to_signed}
use zynq_rtl_flow.Effects.{M, ◌>>=◌, return, lift, raise}
use zynq_rtl_flow.Effects.Laws.{bind-eq-ok, bind-ok}
use zynq_rtl_flow.Bench.PeSeam.{check}
use zynq_rtl_flow.Bench.SparseSeam.{
  Bus, reg_status, reg_acc, reg_skip, is_busy, is_done, poll_limit, start, send, polled, poll,
  await_done, read_acc, run_tile, check_tile,
}

module _ (bus : Bus) where
  open bus use {State, read_dword}

  -- Reads of STATUS, at most as many as the first index says: none but the last reports DONE, and
  -- the last reports DONE without BUSY.
  pub data Polls : ℕ → State → State → Type 0 where
    completed :
        (n : ℕ) (s t : State) (status : ℕ)
        → read_dword reg_status s ≡ (ok status, t)
        → is_done status ≡ true
        → is_busy status ≡ false
        → Polls (suc n) s t
    again :
        (n : ℕ) (s u t : State) (status : ℕ)
        → read_dword reg_status s ≡ (ok status, u)
        → is_done status ≡ false
        → Polls n u t
        → Polls (suc n) s t

  -- the branches behind a status, for the truth of its two bits
  branch-ok :
      (d b : Bool) (rest : M State (Unit {0})) (s t : State)
      → (if d then (if b then raise assertion_error else return tt) else rest) s ≡ (ok tt, t)
      → ((d ≡ true) × (b ≡ false) × (s ≡ t)) ⊎ ((d ≡ false) × (rest s ≡ (ok tt, t)))
  branch-ok true true rest s t h = absurd (unit (ap (λ x. x.0) h))
    where
      unit : ◌≡◌ {A = Result (Unit {0})} (err assertion_error) (ok tt) → ⊥
      unit e = cc
  branch-ok true false rest s t h = inl (refl, refl, ap (λ x. x.1) h)
  branch-ok false b rest s t h = inr (refl, h)

  poll_zero : (s t : State) → poll bus 0 s ≡ (ok tt, t) → ⊥
  unfolding poll
  poll_zero s t h = unit (ap (λ x. x.0) h)
    where
      unit : ◌≡◌ {A = Result (Unit {0})} (err assertion_error) (ok tt) → ⊥
      unit e = cc

  poll-Polls : (n : ℕ) (s t : State) → poll bus n s ≡ (ok tt, t) → Polls n s t
  unfolding poll
  poll-Polls zero s t h = absurd (poll_zero s t h)
  poll-Polls (suc n) s t h =
      let (status, u, p, q) = bind-eq-ok (read_dword reg_status) (polled bus (poll bus n)) h in
      elim (branch-ok (is_done status) (is_busy status) (poll bus n) u t q) [
        | inl (d, b, same) ↦ completed n s t status (rw (← same) p) d b
        | inr (d, rest) ↦ again n s u t status p d (poll-Polls n u t rest)
      ]

  polled-done :
      (rest : M State (Unit {0})) (status : ℕ) (s : State)
      → is_done status ≡ true
      → is_busy status ≡ false
      → polled bus rest status s ≡ (ok tt, s)
  polled-done rest status s d b =
      ap₂ (λ x y. (if x then (if y then raise assertion_error else return tt) else rest) s) d b

  polled-again :
      (rest : M State (Unit {0})) (status : ℕ) (s : State)
      → is_done status ≡ false
      → polled bus rest status s ≡ rest s
  polled-again rest status s d =
      ap
        (λ x. (if x then (if is_busy status then raise assertion_error else return tt) else rest) s)
        d

  pub Polls-poll : {n : ℕ} {s t : State} → Polls n s t → poll bus n s ≡ (ok tt, t)
  unfolding poll
  Polls-poll (completed n s t status p d b) =
      bind-ok (read_dword reg_status) (polled bus (poll bus n)) s t status p
      ∙ polled-done (poll bus n) status t d b
  Polls-poll (again n s u t status p d rest) =
      bind-ok (read_dword reg_status) (polled bus (poll bus n)) s u status p
      ∙ (polled-again (poll bus n) status u d ∙ Polls-poll rest)

  await_done-Polls : (s t : State) → await_done bus s ≡ (ok tt, t) → Polls poll_limit s t
  unfolding await_done
  await_done-Polls s t h = poll-Polls poll_limit s t h

  -- A passing check of a tile, step by step: START, the beats, the polls, the two results.
  pub record Passed (weights acts : List ℤ) (s t : State) : Type 0 where
    pub started : State
    pub submitted : State
    pub finished : State
    pub halfway : State
    pub word : ℕ
    pub start_is : start bus s ≡ (ok tt, started)
    pub send_is : send bus weights acts started ≡ (ok tt, submitted)
    pub polls : Polls poll_limit submitted finished
    pub acc_is : read_dword reg_acc finished ≡ (ok word, halfway)
    pub skip_is : read_dword reg_skip halfway ≡ (ok (golden weights acts).1, t)
    pub golden_acc : to_signed (pos word) acc_w ≡ (golden weights acts).0

  -- the reads behind the polls
  abbrev pub results : M State (ℤ × ℕ)
  results = read_acc bus >>= λ acc. read_dword reg_skip >>= λ skip. return (acc, skip)

  abbrev pub behind_send : M State (ℤ × ℕ)
  behind_send = await_done bus >>= λ _. results

  abbrev pub behind_start : List ℤ → List ℤ → M State (ℤ × ℕ)
  behind_start weights acts = send bus weights acts >>= λ _. behind_send

  abbrev pub compare_with : ℤ × ℕ → ℤ × ℕ → M State (Unit {0})
  compare_with exp got = lift (check (got.0 ==ℤ exp.0)) >>= λ _. lift (check (got.1 == exp.1))

  return-ok : {A : Type 0} {a b : A} {s t : State} → return a s ≡ (ok b, t) → (a ≡ b) × (s ≡ t)
  return-ok h = (ok-injective (ap (λ x. x.0) h), ap (λ x. x.1) h)

  checks-ok :
      (a b : Bool) (s t : State)
      → (lift (check a) >>= λ _. lift (check b)) s ≡ (ok tt, t)
      → (a ≡ true) × (b ≡ true) × (s ≡ t)
  checks-ok true true s t h = (refl, refl, ap (λ x. x.1) h)
  checks-ok true false s t h = absurd (failed (ap (λ x. x.0) h))
    where
      failed : ◌≡◌ {A = Result (Unit {0})} (err assertion_error) (ok tt) → ⊥
      failed e = cc
  checks-ok false b s t h = absurd (failed (ap (λ x. x.0) h))
    where
      failed : ◌≡◌ {A = Result (Unit {0})} (err assertion_error) (ok tt) → ⊥
      failed e = cc

  compare_with-ok :
      (exp got : ℤ × ℕ) (s t : State)
      → compare_with exp got s ≡ (ok tt, t)
      → (got.0 ≡ exp.0) × (got.1 ≡ exp.1) × (s ≡ t)
  compare_with-ok exp got s t h =
      let (p, q, same) = checks-ok (got.0 ==ℤ exp.0) (got.1 == exp.1) s t h in
      (==ℤ_sound got.0 exp.0 p, (==_iff got.1 exp.1).0 q, same)

  results-ok :
      (s t : State) (got : ℤ × ℕ)
      → results s ≡ (ok got, t)
      → (u : State) × (word : ℕ) × (read_dword reg_acc s ≡ (ok word, u))
        × (read_dword reg_skip u ≡ (ok got.1, t))
        × (to_signed (pos word) acc_w ≡ got.0)
  unfolding read_acc
  results-ok s t got h =
      let (acc, u, p, q) =
        bind-eq-ok (read_acc bus) (λ acc. read_dword reg_skip >>= λ skip. return (acc, skip)) h in
      let (word, v, r, k) =
        bind-eq-ok (read_dword reg_acc) (λ raw. return (to_signed (pos raw) acc_w)) p in
      let (skip, w, m, n) = bind-eq-ok (read_dword reg_skip) (λ skip. return (acc, skip)) q in
      let (a, same) = return-ok {a = to_signed (pos word) acc_w} {b = acc} {s = v} {t = u} k in
      let (g, last) = return-ok {a = (acc, skip)} {b = got} {s = w} {t = t} n in
      (
        u,
        word,
        r ∙ ap (λ x. (ok word, x)) same,
        m ∙ ap₂ (λ x y. (ok x, y)) (ap (λ x. x.1) g) last,
        a ∙ ap (λ x. x.0) g,
      )

  -- The check of a tile passes only if the accelerator took START and the beats, then reported DONE
  -- without BUSY within the limit of polls, and its ACC and SKIP registers read as the golden
  -- accumulator and skip count.
  pub check_tile-Passed :
      (weights acts : List ℤ) (s t : State)
      → check_tile bus weights acts s ≡ (ok tt, t)
      → Passed weights acts s t
  unfolding check_tile run_tile
  check_tile-Passed weights acts s t h =
      let exp = golden weights acts in
      let (got, v, h1, c) = bind-eq-ok (run_tile bus weights acts) (compare_with exp) h in
      let (acc_eq, skip_eq, same) = compare_with-ok exp got v t c in
      let (_, s1, st, h2) = bind-eq-ok (start bus) (λ _. behind_start weights acts) h1 in
      let (_, s2, se, h3) = bind-eq-ok (send bus weights acts) (λ _. behind_send) h2 in
      let (_, s3, aw, h4) = bind-eq-ok (await_done bus) (λ _. results) h3 in
      let (s4, word, a, k, g) = results-ok s3 v got h4 in
      record {
        started = s1;
        submitted = s2;
        finished = s3;
        halfway = s4;
        word = word;
        start_is = st;
        send_is = se;
        polls = await_done-Polls s2 s3 aw;
        acc_is = a;
        skip_is = k ∙ ap₂ (λ x y. (ok x, y)) skip_eq same;
        golden_acc = g ∙ acc_eq;
      }

  -- `await_done` succeeds exactly when STATUS reports DONE without BUSY at one of the first 10000
  -- reads, and at none before it DONE; the state is then the one behind that read.
  pub await_done_iff : (s t : State) → (await_done bus s ≡ (ok tt, t)) ↔ Polls poll_limit s t
  unfolding await_done
  await_done_iff s t = (poll-Polls poll_limit s t, Polls-poll)
