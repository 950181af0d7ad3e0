-- ===== src/RunTile/Main/Verdict.antt =====
-- What the exit code of driver/run-tile.py says of the run.
use mathlib.Core.Path.{subst}
use zynq_rtl_flow.Base.{
  ℕ, List, [], ◌∷◌, Option, none, some, ◌≡◌, ◌≢◌, refl, sym, ap, ◌∙◌, arith, Result, ok, err, exit,
  type_error, Option-cases, inl, inr,
}
use zynq_rtl_flow.Base.Int.{sub_ℕ}
use zynq_rtl_flow.Str.{Text}
use zynq_rtl_flow.Effects.{M, ◌>>=◌, finally, raise}
use zynq_rtl_flow.Effects.Laws.{bind-eq-ok}
use zynq_rtl_flow.Golden.Rng.{Rng}
use zynq_rtl_flow.RunTile.Board.{Board}
use zynq_rtl_flow.RunTile.Interrupts.{irq_count}
use zynq_rtl_flow.RunTile.Runners.{sparse_tiles, relu_tiles}
use zynq_rtl_flow.RunTile.Runners.Matches.{
  InTurn, SparseMatch, ReluMatch, run_sparse_cnn-InTurn, run_relu-InTurn,
}
use zynq_rtl_flow.RunTile.Main.{
  Runner, sparse_cnn, relu, device_of, choose, run, count_interrupts, exit_code, conclude,
  run_counted, main, no_line,
}

-- The code is 0 exactly when every tile matched and the count moved.
exit_code_zero :
    (matched total after before : ℕ)
    → exit_code matched total (sub_ℕ after before) ≡ 0
    → (matched ≡ total) × (after ≢ before)
unfolding exit_code
exit_code_zero matched total after before h = ground arith

module _ (board : Board) (rng : Rng) where
  open board use {State, interrupts, open_device, close}

  -- every tile of the runner matched, one behind the other
  abbrev pub Matched : Runner → State → State → Type 0
  Matched sparse_cnn s u = InTurn (SparseMatch board rng) sparse_tiles s u
  Matched relu s u = InTurn (ReluMatch board rng) relu_tiles s u

  run-Matched :
      (r : Runner) (total : ℕ) (s u : State)
      → run board rng r s ≡ (ok (total, total), u)
      → Matched r s u
  unfolding run
  run-Matched sparse_cnn total s u h = run_sparse_cnn-InTurn board rng total s u h
  run-Matched relu total s u h = run_relu-InTurn board rng total s u h

  -- What a run that exits with 0 went through.
  pub record Verified (argv : List Text) (s t : State) : Type 0 where
    pub runner : Runner
    pub before : ℕ
    pub after : ℕ
    pub total : ℕ
    pub opened : State
    pub done : State
    pub chosen : choose board rng argv s ≡ (ok runner, s)
    pub counted : irq_count (interrupts s) ≡ some before
    pub opens : open_device (device_of runner) s ≡ (ok tt, opened)
    pub all_matched : run board rng runner opened ≡ (ok (total, total), done)
    pub each_matched : Matched runner opened done
    pub closed : t ≡ close done
    pub counted_after : irq_count (interrupts t) ≡ some after
    pub moved : after ≢ before

  choose_keeps :
      (argv : List Text) (s : State) {r : Runner} {t : State}
      → choose board rng argv s ≡ (ok r, t)
      → t ≡ s
  unfolding choose
  choose_keeps [] s h = sym (ap (λ x. x.1) h)
  choose_keeps (name ∷ _) s h = ground arith

  conclude-some :
      (before n : ℕ) (counts : ℕ × ℕ) (s : State)
      → irq_count (interrupts s) ≡ some n
      → conclude board rng before counts s ≡ (ok (exit_code counts.0 counts.1 (sub_ℕ n before)), s)
  unfolding conclude
  conclude-some before n (matched, total) s e = ground arith

  conclude-none :
      (before : ℕ) (counts : ℕ × ℕ) (s : State)
      → irq_count (interrupts s) ≡ none
      → conclude board rng before counts s ≡ (err type_error, s)
  unfolding conclude
  conclude-none before (matched, total) s e = ground arith

  ok-pair :
      {c d : ℕ} {s t : State} → ◌≡◌ {A = Result ℕ × State} (ok c, s) (ok d, t) → (c ≡ d) × (s ≡ t)
  ok-pair h = (cc (ap (λ x. x.0) h), ap (λ x. x.1) h)

  conclude_zero :
      (before : ℕ) (counts : ℕ × ℕ) (s t : State)
      → conclude board rng before counts s ≡ (ok 0, t)
      → (t ≡ s)
        × (counts.0 ≡ counts.1)
        × ((after : ℕ) × (irq_count (interrupts s) ≡ some after) × (after ≢ before))
  conclude_zero before counts s t h = elim (Option-cases (irq_count (interrupts s))) [
    | inl e ↦ absurd (failed (ap (λ x. x.0) (sym (conclude-none before counts s e) ∙ h)))
    | inr (n, e) ↦
        let (code, same) = ok-pair (sym (conclude-some before n counts s e) ∙ h) in
        let (all, moved) = exit_code_zero counts.0 counts.1 n before code in
        (sym same, all, (n, e, moved))
  ]
    where
      failed : ◌≡◌ {A = Result ℕ} (err type_error) (ok 0) → ⊥
      failed k = cc

  count_is : (s : State) → count_interrupts board rng s ≡ (ok (irq_count (interrupts s)), s)
  unfolding count_interrupts
  count_is s = refl

  finally-eq-ok :
      (m : M State (ℕ × ℕ)) {u w : State} {counts : ℕ × ℕ}
      → finally m close u ≡ (ok counts, w)
      → (v : State) × (m u ≡ (ok counts, v)) × (w ≡ close v)
  finally-eq-ok m {u} {w} {counts} h = split (m u) refl h
    where
      split :
          (x : Result (ℕ × ℕ) × State)
          → m u ≡ x
          → ◌≡◌ {A = Result (ℕ × ℕ) × State} (x.0, close x.1) (ok counts, w)
          → (v : State) × (m u ≡ (ok counts, v)) × (w ≡ close v)
      split (r, v) e k = (v, e ∙ ap (λ y. (y, v)) (ap (λ y. y.0) k), sym (ap (λ y. y.1) k))

  -- A counted run that ends with code 0 opened the device, matched every tile, closed the device
  -- and found another count of interrupts.
  record Counted (r : Runner) (before : ℕ) (s t : State) : Type 0 where
    opened : State
    done : State
    total : ℕ
    after : ℕ
    opens : open_device (device_of r) s ≡ (ok tt, opened)
    all_matched : run board rng r opened ≡ (ok (total, total), done)
    closed : t ≡ close done
    counted_after : irq_count (interrupts t) ≡ some after
    moved : after ≢ before

  assemble :
      (r : Runner) (before : ℕ) (s t u v w : State) (counts : ℕ × ℕ)
      → open_device (device_of r) s ≡ (ok tt, u)
      → run board rng r u ≡ (ok counts, v)
      → w ≡ close v
      → t ≡ w
      → counts.0 ≡ counts.1
      → ((after : ℕ) × (irq_count (interrupts w) ≡ some after) × (after ≢ before))
      → Counted r before s t
  assemble r before s t u v w (matched, total) opens ran shut same all (n, e, moved) = record {
    opened = u;
    done = v;
    total = total;
    after = n;
    opens = opens;
    all_matched = ran ∙ ap (λ (m : ℕ). (ok (m, total), v)) all;
    closed = same ∙ shut;
    counted_after = ap (λ x. irq_count (interrupts x)) same ∙ e;
    moved = moved;
  }

  run_counted_zero :
      (r : Runner) (before : ℕ) (s t : State)
      → run_counted board rng r before s ≡ (ok 0, t)
      → Counted r before s t
  unfolding run_counted
  run_counted_zero r before s t h =
      let (_, u, opens, k) =
        bind-eq-ok (open_device (device_of r))
          (λ _. finally (run board rng r) close >>= conclude board rng before) h in
      let (counts, w, ran, l) =
        bind-eq-ok (finally (run board rng r) close) (conclude board rng before) k in
      let (same, all, counted) = conclude_zero before counts w t l in
      let (v, q, c) = finally-eq-ok (run board rng r) ran in
      assemble r before s t u v w counts opens q c same all counted

  -- behind the choice of the accelerator
  abbrev counted_run : Runner → M State ℕ
  counted_run r = count_interrupts board rng >>= λ before. elim before [
    | none ↦ raise (exit no_line)
    | some n ↦ run_counted board rng r n
  ]

  counted_run_zero :
      (r : Runner) (s t : State)
      → counted_run r s ≡ (ok 0, t)
      → (n : ℕ) × (irq_count (interrupts s) ≡ some n) × Counted r n s t
  unfolding count_interrupts
  counted_run_zero r s t h = split (irq_count (interrupts s)) refl h
    where
      split :
          (o : Option ℕ)
          → irq_count (interrupts s) ≡ o
          → (elim o as (λ _. M State ℕ) [
            | none ↦ raise (exit no_line)
            | some n ↦ run_counted board rng r n
          ])
              s
            ≡ (ok 0, t)
          → (n : ℕ) × (irq_count (interrupts s) ≡ some n) × Counted r n s t
      split none e k = absurd (exited (ap (λ x. x.0) k))
        where
          exited : ◌≡◌ {A = Result ℕ} (err (exit no_line)) (ok 0) → ⊥
          exited j = cc
      split (some n) e k = (n, e, run_counted_zero r n s t k)

  -- The script exits with 0 only if it chose an accelerator, its device opened, every tile of its
  -- runner was written and read back in turn (of the sparse accelerator with the golden results, of
  -- the activation unit with no beat that differs from the golden ones), the device was closed, and
  -- the controller's interrupts were counted before and after with different results.
  pub main_zero :
      (argv : List Text) (s t : State) → main board rng argv s ≡ (ok 0, t) → Verified argv s t
  unfolding main
  main_zero argv s t h =
      let (r, u, chosen, k) = bind-eq-ok (choose board rng argv) counted_run h in
      let same = choose_keeps argv s chosen in
      let (n, e, c) = counted_run_zero r s t (subst (λ x. counted_run r x ≡ (ok 0, t)) same k) in
      record {
        runner = r;
        before = n;
        after = c.after;
        total = c.total;
        opened = c.opened;
        done = c.done;
        chosen = subst (λ x. choose board rng argv s ≡ (ok r, x)) same chosen;
        counted = e;
        opens = c.opens;
        all_matched = c.all_matched;
        each_matched = run-Matched r c.total c.opened c.done c.all_matched;
        closed = c.closed;
        counted_after = c.counted_after;
        moved = c.moved;
      }
